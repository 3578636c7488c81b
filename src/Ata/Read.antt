-- ===== src/Ata/Read.antt =====
-- `ata_read` (kernel/drivers/ata/ata.c) over a drive of Ata/Drive.
use mike_os.Base.{
  ◌≤◌, ◌⊎◌, ℕ, zero, suc, ◌+◌, ◌-◌, ◌*◌, ◌/◌, ◌^◌, ◌<◌, ◌≡◌, inl, inr, refl, sym, ap, subst, ◌∙◌,
  true, false, ◌||◌, not, some, arith, ==_iff, ltb, u8,
}
use mike_os.PortAccess.{Ports, Run, bind-finished, finished, write_port, ◌>>◌}
use mike_os.Ata.{
  AtaDevice, ata_block_if_busy, ata_pio28_pre_stages, ata_pio28_read, ata_read, ata_wait_for_status,
  device_data_ready, device_ready, read_sectors,
}
use mike_os.Ata.Drive.{PioDrive}
use mike_os.Ata.Copied.{Copied}
use mike_os.Ata.Sectors.{moved, read_sectors-IsRead}
use mike_os.Ata.Start.{
  ata_pio28_pre_stages-registers, ata_wait_for_status-ready, drive_register-fields,
}

module _ {S : Type 0} {ports : Ports S} {device : AtaDevice} {disk : ℕ → ℕ} {delay : ℕ}
    (drive : PioDrive ports device disk delay) where
  ata_block_if_busy-idle :
      (fuel : ℕ) (s : S)
      → drive.Idle s
      → ata_block_if_busy ports (suc fuel) device s
        ≡ finished (tt, (ports.reads (device.base + 0x7) s).1)
  unfolding ata_block_if_busy
  ata_block_if_busy-idle fuel s idle =
      let free = (==_iff _ 0).1 (drive.idle-status s idle).0 in rw (free, ata_block_if_busy) refl

  -- The steps of `ata_pio28_read`, one after the other.
  ata_pio28_read-steps :
      {s1 s3 s4 : S} {result : Run ((ℕ → ℕ) × S)} (s : S) (fuel sector count : ℕ) (buffer : ℕ → ℕ)
      → device.exists ≡ true
      → ata_pio28_pre_stages ports device sector count s ≡ finished (tt, s1)
      → ata_wait_for_status ports fuel device device_ready
          (ports.writes (device.base + 0x7) 0x20 s1)
        ≡ finished (tt, s3)
      → ata_wait_for_status ports fuel device device_data_ready s3 ≡ finished (tt, s4)
      → read_sectors ports device 0 count buffer s4 ≡ result
      → ata_pio28_read ports fuel device (some buffer) sector count s ≡ result
  unfolding ata_pio28_read
  ata_pio28_read-steps s fuel sector count buffer exists staged ready data_ready returned =
      let allowed : (not device.exists || ltb sector 0 || ltb count 0) ≡ false =
        ground (arith, exists) in
      let read = read_sectors ports device 0 count buffer in
      let wait = ata_wait_for_status ports fuel device device_data_ready >> read in
      let start =
        write_port ports (device.base + 0x7) 0x20
        >> ata_wait_for_status ports fuel device device_ready
        >> wait in
      rw (allowed, ata_pio28_read)
        (bind-finished (λ _. start) staged
          (bind-finished (λ _. wait) ready (bind-finished (λ _. read) data_ready returned)))

  ata_pio28_read-Copied :
      (fuel sector count : ℕ) (buffer : ℕ → ℕ) (s : S)
      → drive.Idle s
      → device.exists ≡ true
      → sector < 2 ^ 28
      → 0 < count
      → count < 256
      → delay < fuel
      → (count ≡ 1) ⊎ (drive.between ≤ 4)
      → (after : ℕ → ℕ) × (s' : S) × (ata_pio28_read ports fuel device (some buffer) sector count s
          ≡ finished (after, s'))
        × Copied disk 0 (sector * 256) (count * 256) buffer after
        × drive.Idle s'
  ata_pio28_read-Copied fuel sector count buffer s idle exists address some_count few enough quick =
      let (s1, staged, idle1, reg2, reg3, reg4, reg5, reg6) =
        ata_pio28_pre_stages-registers drive sector count s idle in
      let fields = drive_register-fields device sector address in
      let s2 = ports.writes (device.base + 0x7) 0x20 s1 in
      let (serving2, soon2) =
        drive.read-command s1 idle1 (omega arith) (ap (λ r. r / 16) reg6 ∙ fields.0) in
      let serving2' : drive.Serving (sector * 256) (suc (count * 256 - 1)) s2 =
        moved drive s2 _ _ _ _ (omega arith) (omega arith) serving2 in
      let (s3, ready3, serving3, soon3, _) =
        ata_wait_for_status-ready drive fuel device_ready (sector * 256) (count * 256 - 1) s2
          (inl refl) serving2' (omega arith) in
      let (s4, ready4, serving4, soon4, at_once) =
        ata_wait_for_status-ready drive fuel device_data_ready (sector * 256) (count * 256 - 1) s3
          (inr refl) serving3 (omega arith) in
      let words =
        read_sectors-IsRead drive 0 (sector * 256) 0 count buffer s4
          (moved drive s4 _ _ _ _ refl (omega arith) serving4) (omega arith)
          (omega (arith, at_once refl)) (λ more. at_once refl)
          (elim quick [ inl single ↦ inl (omega arith) | inr short ↦ inr short ]) in
      (
        words.after,
        words.machine,
        ata_pio28_read-steps s fuel sector count buffer exists staged ready3 ready4 words.returned,
        words.copied,
        drive.served-Idle words.machine _ words.serving,
      )

  -- On an idle drive of Ata/Drive, with fuel for its delay: asked for one sector, or for fewer than 256 of a
  -- drive that has each next sector ready within the four status reads of `ata_sleep`, and within the 28
  -- bits of an address, `ata_read` returns; the sectors are then in the buffer, which is otherwise as it was,
  -- and the drive is idle again.
  pub ata_read-Copied :
      (fuel sector count : ℕ) (buffer : ℕ → ℕ) (s : S)
      → drive.Idle s
      → device.exists ≡ true
      → sector < 2 ^ 28
      → 0 < count
      → count < 256
      → delay < fuel
      → (count ≡ 1) ⊎ (drive.between ≤ 4)
      → (after : ℕ → ℕ) × (s' : S) × (ata_read ports fuel device (some buffer) sector count s
          ≡ finished (after, s'))
        × Copied disk 0 (sector * 256) (count * 256) buffer after
        × drive.Idle s'
  unfolding ata_read
  ata_read-Copied zero sector count buffer s idle exists address some_count few enough quick =
      absurd (omega arith)
  ata_read-Copied (suc fuel) sector count buffer s idle exists address some_count few enough quick =
      let (after, s', returned, copied, idle') =
        ata_pio28_read-Copied (suc fuel) sector count buffer (ports.reads (device.base + 0x7) s).1
          (drive.idle-status s idle).1 exists address some_count few enough quick in
      let same_count : u8 count ≡ count = omega arith in
      (
        after,
        s',
        bind-finished (λ _. ata_pio28_read ports (suc fuel) device (some buffer) sector (u8 count))
            (ata_block_if_busy-idle fuel s idle)
            (subst
              (λ c.
                ata_pio28_read ports (suc fuel) device (some buffer) sector c
                  (ports.reads (device.base + 0x7) s).1
                ≡ finished (after, s'))
              (sym same_count) returned),
        copied,
        idle',
      )
