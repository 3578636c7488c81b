-- ===== src/Idt.antt =====
-- kernel/idt.c and kernel/irq.c: the interrupt descriptor table, the programming of the interrupt
-- controllers as the sequence of port writes, and the dispatch of interrupts. `lidt`, `sti` and the
-- log are left out.
pub mod Vectors
pub mod Dispatch
use mike_os.Base.{
  ℕ, zero, suc, ◌+◌, ◌-◌, ◌*◌, ◌/◌, ◌%◌, ◌^◌, bit_and, bit_or, u8, u16, u32, write, ◌>>>◌, Bool,
  true, false, if◌then◌else◌, ltb, leb, ◌||◌, List, [], ◌∷◌, ◌++◌, Option, none, some, ErrorCode,
  success, invalid_argument,
}

-- `struct idt_entry`.
pub record IdtEntry : Type 0 where
  pub offset_lowerbits : ℕ
  pub selector : ℕ
  pub zero_byte : ℕ
  pub flags : ℕ
  pub offset_higherbits : ℕ

abbrev pub Idt : Type 0
Idt = ℕ → IdtEntry

unfoldable pub load_idt_entry : ℕ → ℕ → ℕ → ℕ → Idt → Idt
load_idt_entry isr_number base selector flags idt_table = write idt_table (u8 isr_number) (record {
  offset_lowerbits = u16 (bit_and base 0xFFFF);
  offset_higherbits = u16 (bit_and (base >>> 16) 0xFFFF);
  selector = u16 selector;
  flags = u8 flags;
  zero_byte = 0;
})

-- A write of a byte to an I/O port.
abbrev pub PortWrite : Type 0
PortWrite = ℕ × ℕ

unfoldable pub initialize_pic : List PortWrite
initialize_pic =
    (0x20, 0x11)
    ∷ (0xA0, 0x11)
    ∷ (0x21, 0x20)
    ∷ (0xA1, 0x28)
    ∷ (0x21, 0x4)
    ∷ (0xA1, 0x2)
    ∷ (0x21, 0x00)
    ∷ (0xA1, 0x00)
    ∷ (0x21, 0x01)
    ∷ (0xA1, 0x01)
    ∷ (0x21, 0xff)
    ∷ (0xA1, 0xff)
    ∷ []

-- `IDT__PRESENT | IDT__RING0 | IDT__INTERRUPT_GATE`.
abbrev pub irq_flags : ℕ
irq_flags = bit_or (bit_or 128 0) 0x0e

abbrev pub kernel_code_segment : ℕ
kernel_code_segment = 0x08

-- The vectors that `irq_init` loads for IRQ 0, 1, ... in turn.
abbrev pub irq_vectors : List ℕ
irq_vectors =
    32 ∷ 33 ∷ 34 ∷ 35 ∷ 36 ∷ 37 ∷ 38 ∷ 39 ∷ 0x70 ∷ 0x71 ∷ 0x72 ∷ 0x73 ∷ 0x74 ∷ 0x75 ∷ 0x76 ∷ 0x77
    ∷ []

unfoldable pub load_irqs : (ℕ → ℕ) → ℕ → List ℕ → Idt → Idt
unfolding load_idt_entry
load_irqs irq n [] idt_table = idt_table
load_irqs irq n (v ∷ vs) idt_table =
    load_irqs irq (n + 1) vs (load_idt_entry v (irq n) kernel_code_segment irq_flags idt_table)

-- `irq n` is the address of the assembly stub `irq_n`.
unfoldable pub irq_init : (ℕ → ℕ) → Idt → Idt
unfolding load_irqs
irq_init irq idt_table = load_irqs irq 0 irq_vectors idt_table

-- The handlers, the state of the devices that they act on, and the port writes so far, latest first.
pub record Irqs (S : Type 0) : Type 0 where
  pub handlers : ℕ → Option (S → S)
  pub device : S
  pub writes : List PortWrite

module _ {S : Type 0} where
  unfoldable pub irq_ack : ℕ → Irqs S → Irqs S
  irq_ack irq_number s = record s {
    writes = (if leb 8 irq_number then 0xA0 else 0x20, 0x20) ∷ s.writes;
  }

  unfoldable pub default_irq_handler : ℕ → Irqs S → Irqs S
  unfolding irq_ack
  default_irq_handler irq_number s = irq_ack irq_number (elim (s.handlers irq_number) [
    | none ↦ s
    | some handler ↦ record s { device = handler s.device }
  ])

  -- The handler `none` is NULL. An unsigned index is never below 0.
  unfoldable pub register_irq : Option (S → S) → ℕ → Irqs S → Irqs S × ErrorCode
  register_irq none index s = (s, invalid_argument)
  register_irq (some handler) index s =
      if ltb 15 index
      then (s, invalid_argument)
      else (record s { handlers = write s.handlers index (some handler) }, success)

  unfoldable pub unregister_irq : Option (S → S) → ℕ → Irqs S → Irqs S × ErrorCode
  unregister_irq none index s = (s, invalid_argument)
  unregister_irq (some handler) index s =
      if ltb 15 index
      then (s, invalid_argument)
      else (record s { handlers = write s.handlers index none }, success)
