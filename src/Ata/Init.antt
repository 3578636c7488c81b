-- ===== src/Ata/Init.antt =====
-- kernel/drivers/ata/ata.c, finding the drives: `ata_init` and `extract_identify_buffer`. Drives and block
-- devices are known by their index in their tables.
-- `block_device_t`: its name up to the terminator, whether `read` and `write` are `ata_read` and
-- `ata_write`, and the index of the drive that `device_specific` points to.
use mike_os.Base.{
  ℕ, zero, suc, ◌+◌, ◌*◌, ◌%◌, Bool, true, false, ◌&&◌, Option, none, some, List, [], ◌∷◌, bit_or,
  if◌then◌else◌, ltb, ◌==◌, u32, ◌<<<◌,
}
use mike_os.PortAccess.{M, Ports, read_port, return, ◌>>=◌, ◌>>◌}
use mike_os.Ata.{
  AtaDevice, DeviceType, ata, ata_identify, ata_select_device, atapi, default_sector_size,
  read_words, sata,
}

pub record BlockDevice : Type 0 where
  pub name : List ℕ
  pub driven : Bool
  pub device_specific : ℕ
  pub device_size : ℕ
  pub sector_size : ℕ

-- The tables `ata_devices` and `devices`, and `root_device`, an index into the second or NULL.
pub record Drives : Type 0 where
  pub ata_devices : ℕ → AtaDevice
  pub devices : ℕ → BlockDevice
  pub root_device : Option ℕ

abbrev pub max_ata_drives : ℕ
max_ata_drives = 4

abbrev pub identify_buffer_size : ℕ
identify_buffer_size = 256

-- What `extract_identify_buffer` takes from the words of the drive.
unfoldable pub extract_identify_buffer : (ℕ → ℕ) → AtaDevice → AtaDevice × Bool
extract_identify_buffer identify_buffer device =
    if identify_buffer 0 == 0
    then (record device { exists = false }, false)
    else (let size = bit_or 0 (identify_buffer 0x3d) in
        let size' = bit_or (u32 (size <<< 16)) (identify_buffer 0x3c) in
        (
          record device {
            signature = identify_buffer 0;
            features = identify_buffer 0x31;
            command_supported = bit_or (identify_buffer 0x52) (u32 (identify_buffer 0x53 <<< 16));
            is_lba48 = false;
            drive_size = u32 (size' * device.sector_size);
          },
          true,
        ))

unfoldable pub name_of : DeviceType → List ℕ
name_of ata = 65 ∷ 84 ∷ 65 ∷ []
name_of atapi = 65 ∷ 84 ∷ 65 ∷ 80 ∷ 73 ∷ []
name_of sata = 83 ∷ 65 ∷ 84 ∷ 65 ∷ []

unfoldable pub replaced : {A : Type 0} → (ℕ → A) → ℕ → A → ℕ → A
replaced f i x j = if j == i then x else f j

unfoldable pub choose_root : ℕ → Option ℕ → Option ℕ
choose_root i none = some i
choose_root i (some r) = some r

unfoldable pub block_of : ℕ → AtaDevice → BlockDevice
unfolding name_of
block_of i device = record {
  name = name_of device.device_type;
  driven = true;
  device_specific = i;
  device_size = device.drive_size;
  sector_size = device.sector_size;
}

-- The end of an iteration of `ata_init`: whether the words were a drive's, and what it makes of the tables.
unfoldable pub record_drive : ℕ → Drives → AtaDevice → Bool → Drives
unfolding block_of replaced choose_root
record_drive i drives device false = record drives {
  ata_devices = replaced drives.ata_devices i device;
}
record_drive i drives device true = record {
  ata_devices = replaced drives.ata_devices i device;
  devices = replaced drives.devices i (block_of i device);
  root_device = choose_root i drives.root_device;
}

unfoldable pub register_drive : ℕ → AtaDevice → (ℕ → ℕ) → Drives → Drives
unfolding extract_identify_buffer record_drive
register_drive i device identify_buffer drives =
    let extracted = extract_identify_buffer identify_buffer device in
    record_drive i drives extracted.0 extracted.1

-- The bases that `ata_init` gives the four drives, two on each channel.
unfoldable pub with_bases : (ℕ → AtaDevice) → ℕ → AtaDevice
with_bases ata_devices i =
    if ltb i 2
    then record (ata_devices i) { base = 0x1F0 }
    else if ltb i max_ata_drives
    then record (ata_devices i) { base = 0x170 }
    else ata_devices i

module _ {S : Type 0} (ports : Ports S) where
  -- The type of a drive that answered, from the signature of its registers.
  unfoldable pub identify_type : AtaDevice → M S AtaDevice
  unfolding ata_identify
  identify_type device = do
    type1 ← read_port ports (device.base + 0x4)
    type2 ← read_port ports (device.base + 0x5)
    if (type1 == 0x14) && (type2 == 0x15)
        then (ata_identify ports true device >> return (record device { device_type = atapi }))
        else if (type1 == 0x3c) && (type2 == 0xc3)
        then return (record device { device_type = sata })
        else return (record device { device_type = ata; sector_size = default_sector_size })

  -- The rest of the loop's body for a drive that was identified or did not answer.
  unfoldable pub init_answered : ℕ → Drives → AtaDevice → Bool → M S Drives
  unfolding identify_type read_words register_drive replaced
  init_answered i drives device false =
      return (record drives { ata_devices = replaced drives.ata_devices i device })
  init_answered i drives device true = do
    device' ← identify_type (record device { exists = true })
    identify_buffer ← read_words ports device' 0 identify_buffer_size (λ _. 0)
    return (register_drive i device' identify_buffer drives)

  -- The body of the loop of `ata_init`.
  unfoldable pub init_drive : ℕ → Drives → M S Drives
  unfolding ata_select_device ata_identify init_answered
  init_drive i drives = do
    let device = record (drives.ata_devices i) { is_slave = i % 2 == 1 }
    ata_select_device ports device
    answered ← ata_identify ports false device
    init_answered i drives device answered

  -- The loop, from drive i over the drives left.
  unfoldable pub init_loop : ℕ → ℕ → Drives → M S Drives
  unfolding init_drive
  init_loop i zero drives = return drives
  init_loop i (suc left) drives = do drives' ← init_drive i drives; init_loop (i + 1) left drives'

  unfoldable pub ata_init : Drives → M S Drives
  unfolding init_loop with_bases
  ata_init drives =
      init_loop 0 max_ata_drives (record drives { ata_devices = with_bases drives.ata_devices })
