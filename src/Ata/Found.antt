-- ===== src/Ata/Found.antt =====
-- The drives that `ata_init` (kernel/drivers/ata/ata.c) finds, whatever the ports answer.
-- The type that a drive is given, with its sector size: `old` is what the table had.
use mike_os.Base.{
  ◌∙◌, ℕ, zero, suc, ◌+◌, ◌%◌, ◌≡◌, ◌≢◌, ◌⊎◌, inl, inr, refl, Bool, true, false, ◌&&◌, Bool-cases,
  ◌==◌,
}
use mike_os.PortAccess.{Ends, M, Ports, bind-Ends, bind-finished, return, ◌>>=◌}
use mike_os.Ata.{AtaDevice, ata, ata_identify, ata_select_device, ata_sleep, atapi, read_words}
use mike_os.Ata.Init.{
  Drives, identify_buffer_size, identify_type, init_answered, init_drive, register_drive, replaced,
}

abbrev pub IsTyped : ℕ → AtaDevice → Type 0
IsTyped old device =
    ((device.device_type ≡ ata) × (device.sector_size ≡ 512))
    ⊎ ((device.device_type ≢ ata) × (device.sector_size ≡ old))

-- An iteration of the loop for drive i: it did not answer, or its words went into the tables.
pub data Found (i : ℕ) (drives : Drives) : Drives → Type 0 where
  missing :
      (slave : Bool)
      → slave ≡ (i % 2 == 1)
      → Found i drives (record drives {
        ata_devices =
            replaced drives.ata_devices i (record (drives.ata_devices i) { is_slave = slave });
      })
  answered :
      (device : AtaDevice) (words : ℕ → ℕ)
      → device.exists ≡ true
      → device.is_slave ≡ (i % 2 == 1)
      → IsTyped (drives.ata_devices i).sector_size device
      → Found i drives (register_drive i device words drives)

module _ {S : Type 0} (ports : Ports S) where
  read_words-Ends :
      (device : AtaDevice) (at left : ℕ) (buffer : ℕ → ℕ) (s : S)
      → Ends (λ _. Unit {0}) (read_words ports device at left buffer s)
  unfolding read_words
  read_words-Ends device at zero buffer s = (buffer, s, refl, tt)
  read_words-Ends device at (suc left) buffer s = read_words-Ends device (at + 1) left _ _

  ata_identify-Ends :
      (packet : Bool) (device : AtaDevice) (s : S)
      → Ends (λ _. Unit {0}) (ata_identify ports packet device s)
  unfolding ata_identify ata_sleep
  ata_identify-Ends packet device s = (_, _, refl, tt)

  identify_type-Ends :
      (device : AtaDevice) (s : S)
      → Ends
          (λ device'.
            (device'.exists ≡ device.exists)
            × (device'.is_slave ≡ device.is_slave)
            × IsTyped device.sector_size device')
          (identify_type ports device s)
  unfolding identify_type
  identify_type-Ends device s =
      let (type1, s1) = ports.reads (device.base + 0x4) s in
      let (type2, s2) = ports.reads (device.base + 0x5) s1 in
      elim (Bool-cases ((type1 == 0x14) && (type2 == 0x15))) [
        | inl packet ↦
            let (_, s3, done_eq, _) = ata_identify-Ends true device s2 in
            rw (packet, identify_type)
              (
                _,
                s3,
                bind-finished (λ _. return (record device { device_type = atapi })) done_eq refl,
                (refl, refl, inr ((λ e. cc), refl)),
              )
        | inr other ↦ elim (Bool-cases ((type1 == 0x3c) && (type2 == 0xc3))) [
          | inl serial ↦
              rw (other, serial, identify_type) (_, _, refl, (refl, refl, inr ((λ e. cc), refl)))
          | inr plain ↦
              rw (other, plain, identify_type) (_, _, refl, (refl, refl, inl (refl, refl)))
        ]
      ]

  init_answered-Found :
      (i : ℕ) (drives : Drives) (slave heard : Bool) (s : S)
      → slave ≡ (i % 2 == 1)
      → Ends (Found i drives) (
          init_answered ports i drives (record (drives.ata_devices i) { is_slave = slave }) heard s)
  unfolding init_answered
  init_answered-Found i drives slave false s place = (_, _, refl, missing slave place)
  init_answered-Found i drives slave true s place =
      let device = record (drives.ata_devices i) { is_slave = slave; exists = true } in
      let next : AtaDevice → M S Drives = λ device'.
        read_words ports device' 0 identify_buffer_size (λ _. 0) >>= λ words.
        return (register_drive i device' words drives) in
      bind-Ends
        (λ device'.
          (device'.exists ≡ true) × (device'.is_slave ≡ slave) × IsTyped device.sector_size device')
        (Found i drives) (identify_type ports device s) next (identify_type-Ends device s)
        (λ device' s' known.
          let (words, s'', read, _) = read_words-Ends device' 0 256 (λ _. 0) s' in
          (
            _,
            s'',
            bind-finished (λ words. return (register_drive i device' words drives)) read refl,
            answered device' words known.0 (known.1 ∙ place) known.2,
          ))

  pub init_drive-Found :
      (i : ℕ) (drives : Drives) (s : S) → Ends (Found i drives) (init_drive ports i drives s)
  unfolding init_drive ata_select_device ata_sleep
  init_drive-Found i drives s =
      let device = record (drives.ata_devices i) { is_slave = i % 2 == 1 } in
      bind-Ends (λ _. Unit {0}) (Found i drives) (ata_identify ports false device _)
        (init_answered ports i drives device) (ata_identify-Ends false device _)
        (λ heard s' _. init_answered-Found i drives (i % 2 == 1) heard s' refl)
