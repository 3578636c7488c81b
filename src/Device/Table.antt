-- ===== src/Device/Table.antt =====
-- What the table of block devices holds after its operations (kernel/dev/device.c).
use mike_os.Base.{
  ℕ, zero, suc, ◌+◌, false, if◌then◌else◌, ◌==◌, write, ◌≤◌, ◌<◌, ◌≡◌, ◌≢◌, refl, arith, ◌⊎◌, inl,
  inr, Bool-cases,
}
use mike_os.Device.{
  Devices, max_devices, fill_loop, register_device, remove_loop, unregister_device,
}

fill_loop_lem :
    (dev i n : ℕ) (ptrs : ℕ → ℕ) (k : ℕ)
    → dev ≢ 0
    → ((k < i) ⊎ (i + n ≤ k) → fill_loop dev i n ptrs k ≡ ptrs k)
      × (i ≤ k → k < i + n → fill_loop dev i n ptrs k ≡ (if ptrs k == 0 then dev else ptrs k))
unfolding fill_loop
fill_loop_lem dev i zero ptrs k h = (λ _. refl, λ l u. absurd (omega arith))
fill_loop_lem dev i (suc n) ptrs k h =
    let later = fill_loop_lem dev (i + 1) n (if ptrs i == 0 then write ptrs i dev else ptrs) k h in
    (λ out. ground arith, λ l u. ground arith)

-- Of a device that is not NULL, with fewer than 50 registrations counted: it is stored in every empty
-- slot, the other slots keep their devices, one registration is counted, and the answer is false.
pub register_device-fills :
    (dev : ℕ) (s : Devices)
    → dev ≢ 0
    → s.registered_devices < max_devices
    → let r = register_device dev s in
      (r.1 ≡ false)
      × (r.0.registered_devices ≡ s.registered_devices + 1)
      × ((k : ℕ)
          → k < max_devices
          → r.0.devices_ptrs k ≡ (if s.devices_ptrs k == 0 then dev else s.devices_ptrs k))
unfolding register_device
register_device-fills dev s some_device room = (
  ground arith,
  ground arith,
  λ k small. ground (arith, (fill_loop_lem dev 0 max_devices s.devices_ptrs k some_device).1),
)

-- The loop of `unregister_device` stops at the first slot: a later one keeps the device.
remove_loop-keeps_later :
    (dev i n j k : ℕ) (s : Devices)
    → i ≤ j
    → j < k
    → j < i + n
    → s.devices_ptrs j ≡ dev
    → (remove_loop dev i n s).0.devices_ptrs k ≡ s.devices_ptrs k
unfolding remove_loop
remove_loop-keeps_later dev i zero j k s l less u at = absurd (omega arith)
remove_loop-keeps_later dev i (suc n) j k s l less u at =
    elim (Bool-cases (s.devices_ptrs i == dev)) [
      | inl here ↦ rw here (ground arith)
      | inr other ↦
          rw other
            (remove_loop-keeps_later dev (i + 1) n j k s (ground arith) less (ground arith) at)
    ]

-- Of a device that is registered while the slots j < k are empty: unregistering it leaves the
-- device in slot k.
pub unregister_device-stale :
    (dev j k : ℕ) (s : Devices)
    → dev ≢ 0
    → s.registered_devices < max_devices
    → j < k
    → k < max_devices
    → s.devices_ptrs j ≡ 0
    → s.devices_ptrs k ≡ 0
    → (unregister_device dev (register_device dev s).0).0.devices_ptrs k ≡ dev
unfolding unregister_device
unregister_device-stale dev j k s some_device room less small empty_j empty_k =
    let filled = (register_device-fills dev s some_device room).2 in
    let at_j : (register_device dev s).0.devices_ptrs j ≡ dev =
      ground (arith, filled j (omega arith)) in
    let at_k : (register_device dev s).0.devices_ptrs k ≡ dev = ground (arith, filled k small) in
    let kept =
      remove_loop-keeps_later dev 0 max_devices j k (register_device dev s).0 (omega arith) less
        (omega arith) at_j in
    ground (arith, kept)
