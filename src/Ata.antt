-- ===== src/Ata.antt =====
-- kernel/drivers/ata/ata.c: the disk driver, over the port instructions of include/port_io/port_io.h,
-- which are an interface. `panicked` is `kernel_panic`; a wait for the status register runs on fuel, and
-- `waiting` is its end. The log and `ata_poll`, which nothing calls, are left out.
pub mod Init
pub mod Found
pub mod Registered
pub mod Inventory
pub mod Drive
pub mod Copied
pub mod Sectors
pub mod Start
pub mod Read
use mike_os.Base.{
  ℕ, zero, suc, ◌+◌, ◌*◌, ◌/◌, Bool, true, false, ◌||◌, not, Option, none, some, bit_and, bit_or,
  if◌then◌else◌, write, ltb, ◌==◌, u8, ◌>>>◌,
}
use mike_os.PortAccess.{
  M, Ports, finished, panic, panicked, read_port, read_word_port, return, waiting, write_port,
  write_word_port, ◌>>=◌, ◌>>◌,
}

pub data DeviceType : Type 0 where
  ata atapi sata : DeviceType

-- `ata_device_t`; the field `model` is never written.
pub record AtaDevice : Type 0 where
  pub base : ℕ
  pub device_type : DeviceType
  pub signature : ℕ
  pub features : ℕ
  pub command_supported : ℕ
  pub sector_size : ℕ
  pub drive_size : ℕ
  pub exists : Bool
  pub is_lba48 : Bool
  pub is_slave : Bool

-- The status bits, the commands and the registers, relative to the base port.
abbrev pub device_busy : ℕ
device_busy = 0x80

abbrev pub device_ready : ℕ
device_ready = 0x40

abbrev pub device_data_ready : ℕ
device_data_ready = 0x08

abbrev pub default_sector_size : ℕ
default_sector_size = 512

module _ {S : Type 0} (ports : Ports S) where
  unfoldable pub ata_sleep : AtaDevice → M S (Unit {0})
  ata_sleep device = do
    read_port ports (device.base + 0x206)
    read_port ports (device.base + 0x206)
    read_port ports (device.base + 0x206)
    read_port ports (device.base + 0x206)
    return tt

  unfoldable pub ata_select_device : AtaDevice → M S (Unit {0})
  unfolding ata_sleep
  ata_select_device device = do
    write_port ports (device.base + 0x6) (if device.is_slave then 0xB0 else 0xA0)
    ata_sleep device

  -- The cast of the status to `bool_t` keeps its byte.
  unfoldable pub ata_identify : Bool → AtaDevice → M S Bool
  unfolding ata_sleep
  ata_identify is_atapi device = do
    write_port ports (device.base + 0x2) 0
    write_port ports (device.base + 0x3) 0
    write_port ports (device.base + 0x4) 0
    write_port ports (device.base + 0x5) 0
    ata_sleep device
    write_port ports (device.base + 0x7) (if is_atapi then 0xA1 else 0xEC)
    ata_sleep device
    status ← read_port ports (device.base + 0x7)
    return (not (status == 0))

  -- `while(read_port(...) & DEVICE_BUSY);`
  unfoldable pub ata_block_if_busy : ℕ → AtaDevice → M S (Unit {0})
  ata_block_if_busy zero device s = waiting
  ata_block_if_busy (suc fuel) device s = elim (read_port ports (device.base + 0x7) s) [
    | panicked ↦ panicked
    | waiting ↦ waiting
    | finished (status, s') ↦ elim (bit_and status device_busy == 0) [
      | true ↦ finished (tt, s')
      | false ↦ ata_block_if_busy fuel device s'
    ]
  ]

  -- `while((read_port(...) & status) == 0);`
  unfoldable pub ata_wait_for_status : ℕ → AtaDevice → ℕ → M S (Unit {0})
  ata_wait_for_status zero device wanted s = waiting
  ata_wait_for_status (suc fuel) device wanted s = elim (read_port ports (device.base + 0x7) s) [
    | panicked ↦ panicked
    | waiting ↦ waiting
    | finished (status, s') ↦ elim (bit_and status wanted == 0) [
      | true ↦ ata_wait_for_status fuel device wanted s'
      | false ↦ finished (tt, s')
    ]
  ]

  unfoldable pub ata_pio28_pre_stages : AtaDevice → ℕ → ℕ → M S (Unit {0})
  ata_pio28_pre_stages device sector sector_count = do
    write_port ports (device.base + 0x6)
        (u8 (bit_or (if device.is_slave then 0xF0 else 0xE0) (bit_and (sector >>> 24) 0x0F)))
    write_port ports (device.base + 0x2) sector_count
    write_port ports (device.base + 0x3) (u8 sector)
    write_port ports (device.base + 0x4) (u8 (sector >>> 8))
    write_port ports (device.base + 0x5) (u8 (sector >>> 16))

  -- The inner loop of `ata_pio28_read`, from word `at` of the buffer over the words left.
  unfoldable pub read_words : AtaDevice → ℕ → ℕ → (ℕ → ℕ) → M S (ℕ → ℕ)
  read_words device at zero buffer = return buffer
  read_words device at (suc left) buffer = do
    word ← read_word_port ports (device.base + 0x0)
    read_words device (at + 1) left (write buffer at word)

  -- The outer loop, from sector i of the buffer over the sectors left.
  unfoldable pub read_sectors : AtaDevice → ℕ → ℕ → (ℕ → ℕ) → M S (ℕ → ℕ)
  unfolding read_words ata_sleep
  read_sectors device i zero buffer = return buffer
  read_sectors device i (suc left) buffer = do
    buffer' ← read_words device (default_sector_size / 2 * i) (default_sector_size / 2) buffer
    ata_sleep device
    read_sectors device (i + 1) left buffer'

  -- The buffer, as words from its start; `none` is NULL.
  unfoldable pub ata_pio28_read : ℕ → AtaDevice → Option (ℕ → ℕ) → ℕ → ℕ → M S (ℕ → ℕ)
  unfolding read_sectors ata_wait_for_status ata_pio28_pre_stages
  ata_pio28_read fuel device none sector sector_count = panic
  ata_pio28_read fuel device (some buffer) sector sector_count =
      if not device.exists || ltb sector 0 || ltb sector_count 0 then panic else (do
        ata_pio28_pre_stages device sector sector_count
        write_port ports (device.base + 0x7) 0x20
        ata_wait_for_status fuel device device_ready
        ata_wait_for_status fuel device device_data_ready
        read_sectors device 0 sector_count buffer)

  -- The inner loop of `ata_pio28_write`, which sleeps after each word.
  unfoldable pub write_words : AtaDevice → ℕ → ℕ → (ℕ → ℕ) → M S (Unit {0})
  unfolding ata_sleep
  write_words device at zero buffer = return tt
  write_words device at (suc left) buffer = do
    write_word_port ports (device.base + 0x0) (buffer at)
    ata_sleep device
    write_words device (at + 1) left buffer

  unfoldable pub write_sectors : AtaDevice → ℕ → ℕ → (ℕ → ℕ) → M S (Unit {0})
  unfolding write_words ata_sleep
  write_sectors device i zero buffer = return tt
  write_sectors device i (suc left) buffer = do
    write_words device (default_sector_size / 2 * i) (default_sector_size / 2) buffer
    ata_sleep device
    write_sectors device (i + 1) left buffer

  unfoldable pub ata_pio28_write : ℕ → AtaDevice → Option (ℕ → ℕ) → ℕ → ℕ → M S (Unit {0})
  unfolding write_sectors ata_wait_for_status ata_pio28_pre_stages
  ata_pio28_write fuel device none sector sector_count = panic
  ata_pio28_write fuel device (some buffer) sector sector_count =
      if not device.exists || ltb sector 0 || ltb sector_count 0 then panic else (do
        ata_pio28_pre_stages device sector sector_count
        write_port ports (device.base + 0x7) 0x30
        ata_wait_for_status fuel device device_ready
        ata_wait_for_status fuel device device_data_ready
        write_sectors device 0 sector_count buffer)

  -- The count of sectors is cut to the `uint8_t` of the parameter.
  unfoldable pub ata_read : ℕ → AtaDevice → Option (ℕ → ℕ) → ℕ → ℕ → M S (ℕ → ℕ)
  unfolding ata_block_if_busy ata_pio28_read
  ata_read fuel device buf begin_sector num_sectors = do
    ata_block_if_busy fuel device
    ata_pio28_read fuel device buf begin_sector (u8 num_sectors)

  unfoldable pub ata_write : ℕ → AtaDevice → Option (ℕ → ℕ) → ℕ → ℕ → M S (Unit {0})
  unfolding ata_block_if_busy ata_pio28_write
  ata_write fuel device buf begin_sector num_sectors = do
    ata_block_if_busy fuel device
    ata_pio28_write fuel device buf begin_sector (u8 num_sectors)
