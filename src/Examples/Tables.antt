-- ===== src/Examples/Tables.antt =====
-- Concrete tables for kernel/gdt.c, kernel/idt.c, kernel/irq.c, kernel/dev/device.c and
-- kernel/mm/early_paging_manager.c.
use mike_os.Base.{
  ℕ, suc, ◌+◌, ◌*◌, ◌/◌, ◌%◌, ◌^◌, ◌≤◌, ◌<◌, ◌≡◌, ◌≢◌, ◌⊎◌, inl, refl, none, some, [], ◌∷◌, arith,
  ltb, if◌then◌else◌, ErrorCode, success, invalid_argument,
}
use mike_os.Device.{Devices, register_device, unregister_device}
use mike_os.Device.Table.{unregister_device-stale}
use mike_os.Early.{paging_init}
use mike_os.Early.Walk.{paging_init-translate, translate}
use mike_os.Gdt.{gate}
use mike_os.Gdt.Fields.{base_of, flags_of, gate-fields, limit_of}
use mike_os.Idt.{
  Idt, Irqs, default_irq_handler, initialize_pic, irq_ack, irq_init, register_irq, unregister_irq,
}
use mike_os.Idt.Dispatch.{register_irq-dispatch}
use mike_os.Idt.Vectors.{first_to, handler_of, irq_init-slave_missed}

gate-fields_example :
    (base_of (gate 0x12345678 0xABCDE 0x9A 0xCF) ≡ 0x12345678)
    × (limit_of (gate 0x12345678 0xABCDE 0x9A 0xCF) ≡ 0xABCDE % 2 ^ 20)
    × (flags_of (gate 0x12345678 0xABCDE 0x9A 0xCF) ≡ 0xCF / 16)
    × ((gate 0x12345678 0xABCDE 0x9A 0xCF).access ≡ 0x9A)
gate-fields_example =
    gate-fields 0x12345678 0xABCDE 0x9A 0xCF (omega arith) (omega arith) (omega arith)

abbrev no_idt : Idt
no_idt _ = record {
  offset_lowerbits = 0;
  selector = 0;
  zero_byte = 0;
  flags = 0;
  offset_higherbits = 0;
}

-- The stub of IRQ n.
abbrev stub : ℕ → ℕ
stub n = 0xC0100000 + n * 16

irq_init-slave_missed_example :
    (handler_of (irq_init stub no_idt (0x20 + 6)) ≡ stub 6)
    × (irq_init stub no_idt (0x28 + 6) ≡ no_idt (0x28 + 6))
unfolding first_to initialize_pic
irq_init-slave_missed_example =
    irq_init-slave_missed stub no_idt 0x20 0x28 6 refl refl (omega arith) (omega arith)

-- Devices that count the interrupts they get.
abbrev quiet : Irqs ℕ
quiet = record { handlers = λ _. none; device = 0; writes = [] }

abbrev counted : Irqs ℕ × ErrorCode
counted = register_irq (some suc) 9 quiet

register_irq-dispatch_example :
    (15 < 9 → counted ≡ (quiet, invalid_argument))
    × (9 ≤ 15
        → (counted.1 ≡ success)
          × (default_irq_handler 9 counted.0 ≡ record (counted.0) {
            device = suc quiet.device;
            writes = (0xA0, 0x20) ∷ quiet.writes;
          })
          × ((m : ℕ)
              → m ≢ 9
              → (default_irq_handler m counted.0).device ≡ (default_irq_handler m quiet).device)
          × (default_irq_handler 9 (unregister_irq (some suc) 9 counted.0).0
              ≡ irq_ack 9 (unregister_irq (some suc) 9 counted.0).0))
register_irq-dispatch_example = register_irq-dispatch {S = ℕ} suc suc 9 quiet

-- Two devices at slots 0 and 1, and a removed one at slot 2.
abbrev devices : Devices
devices = record { devices_ptrs = λ k. if ltb k 2 then 0x5000 + k else 0; registered_devices = 2 }

unregister_device-stale_example :
    (unregister_device 0x7000 (register_device 0x7000 devices).0).0.devices_ptrs 3 ≡ 0x7000
unregister_device-stale_example =
    unregister_device-stale 0x7000 2 3 devices (λ e. absurd (omega arith)) (omega arith)
      (omega arith) (omega arith) refl refl

abbrev empty_memory : ℕ → ℕ
empty_memory _ = 0

paging_init-translate_example :
    let walk_from = translate (paging_init 0x200000 0x300000 empty_memory) 0x300000 in
    ((address : ℕ) → address < 2 ^ 23 → walk_from address ≡ some address)
    × ((address : ℕ) → address < 2 ^ 23 → walk_from (0xC0000000 + address) ≡ some address)
    × ((offset : ℕ) → offset < 4096 → walk_from (0xFFFFF000 + offset) ≡ some (0x300000 + offset))
    × ((address : ℕ)
        → 2 ^ 23 ≤ address
        → address < 0xFFC00000
        → (address < 0xC0000000) ⊎ (0xC0800000 ≤ address)
        → empty_memory (0x300000 + 4 * (address / 2 ^ 22)) ≡ 0
        → walk_from address ≡ none)
paging_init-translate_example =
    paging_init-translate 0x200000 0x300000 empty_memory (omega arith) (omega arith) (omega arith)
      (inl (omega arith))
