-- ===== src/Ata/Start.antt =====
-- What comes before the data of a read (kernel/drivers/ata/ata.c): the address in the registers, and the
-- waits for the drive's status.
use mike_os.Base.{
  ℕ, zero, suc, ◌+◌, ◌*◌, ◌/◌, ◌%◌, ◌^◌, ◌≤◌, ◌<◌, ◌≡◌, ◌⊎◌, inl, inr, refl, sym, subst, ◌∙◌, arith,
  bit_and, bit_or, if◌then◌else◌, ==_iff, Bool-cases, lt_or_le, ◌==◌, u8, ◌>>>◌, bit_and_mask,
  bit_or_fields,
}
use mike_os.PortAccess.{Ports, finished}
use mike_os.Ata.{
  AtaDevice, ata_pio28_pre_stages, ata_wait_for_status, device_data_ready, device_ready,
}
use mike_os.Ata.Drive.{PioDrive}

abbrev pub drive_register : AtaDevice → ℕ → ℕ
drive_register device sector =
    u8 (bit_or (if device.is_slave then 0xF0 else 0xE0) (bit_and (sector >>> 24) 0x0F))

drive_bits :
    (high low : ℕ)
    → high < 16
    → low < 16
    → (u8 (bit_or (high * 2 ^ 4) (bit_and low 0x0F)) / 16 ≡ high)
      × (u8 (bit_or (high * 2 ^ 4) (bit_and low 0x0F)) % 16 ≡ low)
drive_bits high low high_small low_small =
    let kept : bit_and low 0x0F ≡ low = bit_and_mask 4 low ∙ omega arith in
    let both = bit_or_fields 4 high low low_small in rw (kept, both) (omega arith, omega arith)

-- That register selects the drive and holds the top four bits of the address.
pub drive_register-fields :
    (device : AtaDevice) (sector : ℕ)
    → sector < 2 ^ 28
    → (drive_register device sector / 16 ≡ (if device.is_slave then 15 else 14))
      × (drive_register device sector % 16 ≡ sector / 2 ^ 24)
drive_register-fields device sector small = elim (Bool-cases device.is_slave) [
  | inl slave ↦ rw slave (drive_bits 15 (sector / 2 ^ 24) (omega arith) (omega arith))
  | inr master ↦ rw master (drive_bits 14 (sector / 2 ^ 24) (omega arith) (omega arith))
]

module _ {S : Type 0} {ports : Ports S} {device : AtaDevice} {disk : ℕ → ℕ} {delay : ℕ}
    (drive : PioDrive ports device disk delay) where
  -- A wait for a status ends before the fuel does, once the drive has been asked often enough.
  pub ata_wait_for_status-ready :
      (fuel wanted p n : ℕ) (s : S)
      → (wanted ≡ device_ready) ⊎ (wanted ≡ device_data_ready)
      → drive.Serving p (suc n) s
      → drive.pending s < fuel
      → (s' : S) × (ata_wait_for_status ports fuel device wanted s ≡ finished (tt, s'))
        × drive.Serving p (suc n) s'
        × (drive.pending s' ≤ drive.pending s)
        × (wanted ≡ device_data_ready → drive.pending s' ≡ 0)
  unfolding ata_wait_for_status
  ata_wait_for_status-ready zero wanted p n s which serving enough = absurd (omega arith)
  ata_wait_for_status-ready (suc fuel) wanted p n s which serving enough =
      let (serving', less) = drive.serving-status s p n serving in
      elim (Bool-cases (bit_and (ports.reads (device.base + 0x7) s).0 wanted == 0)) [
        | inr shown ↦
            rw (shown, ata_wait_for_status)
              (
                _,
                refl,
                serving',
                omega arith,
                λ same. drive.shown-ready s p n serving (λ unset.
                    let zero_wanted =
                      subst (λ w. bit_and (ports.reads (device.base + 0x7) s).0 w ≡ 0) (sym same)
                        unset in
                    ground (arith, zero_wanted, shown)),
              )
        | inl hidden ↦
            let waits : 0 < drive.pending s = elim (lt_or_le 0 (drive.pending s)) [
              | inl some_left ↦ some_left
              | inr none_left ↦
                  let (ready, data_ready) = drive.ready-status s p n serving (omega arith) in
                  let unset =
                    (==_iff (bit_and (ports.reads (device.base + 0x7) s).0 wanted) 0).0 hidden in
                  absurd (elim which [
                    | inl same ↦ ready (
                        subst (λ w. bit_and (ports.reads (device.base + 0x7) s).0 w ≡ 0) same unset)
                    | inr same ↦ data_ready (
                        subst (λ w. bit_and (ports.reads (device.base + 0x7) s).0 w ≡ 0) same unset)
                  ])
            ] in
            let rest = ata_wait_for_status-ready fuel wanted p n _ which serving' (omega arith) in
            rw (hidden, ata_wait_for_status) (rest.0, rest.1, rest.2, omega arith, rest.4)
      ]

  -- The registers after the address has been written.
  pub ata_pio28_pre_stages-registers :
      (sector count : ℕ) (s : S)
      → drive.Idle s
      → (s' : S) × (ata_pio28_pre_stages ports device sector count s ≡ finished (tt, s'))
        × drive.Idle s'
        × (drive.register 2 s' ≡ count)
        × (drive.register 3 s' ≡ u8 sector)
        × (drive.register 4 s' ≡ u8 (sector >>> 8))
        × (drive.register 5 s' ≡ u8 (sector >>> 16))
        × (drive.register 6 s' ≡ drive_register device sector)
  unfolding ata_pio28_pre_stages
  ata_pio28_pre_stages-registers sector count s idle =
      let s1 = ports.writes (device.base + 6) (drive_register device sector) s in
      let s2 = ports.writes (device.base + 2) count s1 in
      let s3 = ports.writes (device.base + 3) (u8 sector) s2 in
      let s4 = ports.writes (device.base + 4) (u8 (sector >>> 8)) s3 in
      let idle1 : drive.Idle s1 = drive.idle-write s 6 _ (omega arith) (omega arith) idle in
      let idle2 : drive.Idle s2 = drive.idle-write s1 2 _ (omega arith) (omega arith) idle1 in
      let idle3 : drive.Idle s3 = drive.idle-write s2 3 _ (omega arith) (omega arith) idle2 in
      let idle4 : drive.Idle s4 = drive.idle-write s3 4 _ (omega arith) (omega arith) idle3 in
      let at5 =
        λ (k : ℕ). drive.register-write s4 5 k (u8 (sector >>> 16)) (omega arith) (omega arith) in
      let at4 =
        λ (k : ℕ). drive.register-write s3 4 k (u8 (sector >>> 8)) (omega arith) (omega arith) in
      let at3 = λ (k : ℕ). drive.register-write s2 3 k (u8 sector) (omega arith) (omega arith) in
      let at2 = λ (k : ℕ). drive.register-write s1 2 k count (omega arith) (omega arith) in
      let at6 =
        drive.register-write s 6 6 (drive_register device sector) (omega arith) (omega arith) in
      (
        _,
        refl,
        drive.idle-write s4 5 _ (omega arith) (omega arith) idle4,
        at5 2 ∙ at4 2 ∙ at3 2 ∙ at2 2,
        at5 3 ∙ at4 3 ∙ at3 3,
        at5 4 ∙ at4 4,
        at5 5,
        at5 6 ∙ at4 6 ∙ at3 6 ∙ at2 6 ∙ at6,
      )
