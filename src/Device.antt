-- ===== src/Device.antt =====
-- kernel/dev/device.c: the table of block devices. A device is its address, 0 for NULL.
pub mod Table
use mike_os.Base.{
  ℕ, zero, suc, ◌+◌, ◌-◌, ◌%◌, ◌^◌, sub32, u32, Bool, true, false, if◌then◌else◌, ◌==◌, ◌||◌, write,
}

abbrev pub max_devices : ℕ
max_devices = 50

-- `devices_ptrs` and `registered_devices`.
pub record Devices : Type 0 where
  pub devices_ptrs : ℕ → ℕ
  pub registered_devices : ℕ

-- The loop of `register_device`, from slot i over the n slots left.
unfoldable pub fill_loop : ℕ → ℕ → ℕ → (ℕ → ℕ) → ℕ → ℕ
fill_loop dev i zero ptrs = ptrs
fill_loop dev i (suc n) ptrs =
    fill_loop dev (i + 1) n (if ptrs i == 0 then write ptrs i dev else ptrs)

unfoldable pub register_device : ℕ → Devices → Devices × Bool
register_device dev s =
    if (dev == 0) || (s.registered_devices == max_devices) then (s, false) else (
      record s {
        devices_ptrs = fill_loop dev 0 max_devices s.devices_ptrs;
        registered_devices = u32 (s.registered_devices + 1);
      },
      false,
    )

-- The loop of `unregister_device`, from slot i over the n slots left.
unfoldable pub remove_loop : ℕ → ℕ → ℕ → Devices → Devices × Bool
remove_loop dev i zero s = (s, false)
remove_loop dev i (suc n) s =
    let rest = remove_loop dev (i + 1) n s in
    if s.devices_ptrs i == dev
    then (
      record s {
        devices_ptrs = write s.devices_ptrs i 0;
        registered_devices = sub32 s.registered_devices 1;
      },
      true,
    )
    else rest

unfoldable pub unregister_device : ℕ → Devices → Devices × Bool
unregister_device dev s = if dev == 0 then (s, false) else remove_loop dev 0 max_devices s
