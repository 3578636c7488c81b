-- ===== src/Ata/Drive.antt =====
-- A drive in PIO mode with 28-bit addresses, as the ATA standard describes it to a driver: what
-- kernel/drivers/ata/ata.c relies on when it reads from the ports.
use mike_os.Base.{
  ℕ, suc, ◌+◌, ◌-◌, ◌*◌, ◌/◌, ◌%◌, ◌^◌, ◌≤◌, ◌<◌, ◌≡◌, ◌≢◌, bit_and, if◌then◌else◌, write,
}
use mike_os.PortAccess.{Ports}
use mike_os.Ata.{AtaDevice, device_busy, device_data_ready, device_ready}

-- Idle: the drive waits for a command. Serving p n: it has the words p to p + n - 1 of the disk to give,
-- the first as soon as it has been asked `pending` times, and its status shows when. A register keeps what was written to it; a
-- command reads as many sectors as register 2 says, from the one the registers 3 to 6 give. Between two
-- sectors it may be asked up to `between` times, which the standard does not bound.
pub record PioDrive {S : Type 0} (ports : Ports S) (device : AtaDevice) (disk : ℕ → ℕ) (delay : ℕ)
    : Type 1 where
  pub Idle : S → Type 0
  pub Serving : ℕ → ℕ → S → Type 0
  pub register : ℕ → S → ℕ
  pub pending : S → ℕ
  pub between : ℕ
  pub idle-status :
      (s : S)
      → Idle s
      → (bit_and (ports.reads (device.base + 0x7) s).0 device_busy ≡ 0)
        × Idle (ports.reads (device.base + 0x7) s).1
  pub idle-write :
      (s : S) (r v : ℕ) → 2 ≤ r → r ≤ 6 → Idle s → Idle (ports.writes (device.base + r) v s)
  pub register-write :
      (s : S) (r k v : ℕ)
      → 2 ≤ r
      → r ≤ 6
      → register k (ports.writes (device.base + r) v s) ≡ write (λ i. register i s) r v k
  pub read-command :
      (s : S)
      → Idle s
      → 0 < register 2 s
      → register 6 s / 16 ≡ (if device.is_slave then 15 else 14)
      → Serving
          ((register 3 s
              + register 4 s * 2 ^ 8
              + register 5 s * 2 ^ 16
              + register 6 s % 16 * 2 ^ 24)
            * 256)
          (register 2 s * 256)
          (ports.writes (device.base + 0x7) 0x20 s)
        × (pending (ports.writes (device.base + 0x7) 0x20 s) ≤ delay)
  pub serving-status :
      (s : S) (p n : ℕ)
      → Serving p (suc n) s
      → Serving p (suc n) (ports.reads (device.base + 0x7) s).1
        × (pending (ports.reads (device.base + 0x7) s).1 ≤ pending s - 1)
  pub ready-status :
      (s : S) (p n : ℕ)
      → Serving p (suc n) s
      → pending s ≡ 0
      → (bit_and (ports.reads (device.base + 0x7) s).0 device_ready ≢ 0)
        × (bit_and (ports.reads (device.base + 0x7) s).0 device_data_ready ≢ 0)
  pub shown-ready :
      (s : S) (p n : ℕ)
      → Serving p (suc n) s
      → bit_and (ports.reads (device.base + 0x7) s).0 device_data_ready ≢ 0
      → pending (ports.reads (device.base + 0x7) s).1 ≡ 0
  pub serving-alternate :
      (s : S) (p n : ℕ)
      → Serving p n s
      → Serving p n (ports.reads (device.base + 0x206) s).1
        × (pending (ports.reads (device.base + 0x206) s).1 ≤ pending s - 1)
  pub serving-data :
      (s : S) (p n : ℕ)
      → Serving p (suc n) s
      → pending s ≡ 0
      → ((ports.reads_word (device.base + 0x0) s).0 ≡ disk p)
        × Serving (suc p) n (ports.reads_word (device.base + 0x0) s).1
        × (pending (ports.reads_word (device.base + 0x0) s).1 ≤ between)
        × (suc p % 256 ≢ 0 → pending (ports.reads_word (device.base + 0x0) s).1 ≡ 0)
  pub served-Idle : (s : S) (p : ℕ) → Serving p 0 s → Idle s
