-- ===== src/Idt/Vectors.antt =====
-- Which vectors `irq_init` loads (kernel/irq.c), and those that `initialize_pic` (kernel/idt.c) gives
-- the interrupt controllers.
use mike_os.Base.{
  ℕ, ◌+◌, ◌*◌, ◌/◌, ◌^◌, ◌≤◌, ◌<◌, ◌≡◌, ◌≢◌, arith, bit_and_mask, if◌then◌else◌, ltb, ◌==◌, ◌∙◌, ap,
  ◌⊎◌, List, [], ◌∷◌, Option, some, none, subst,
}
use mike_os.Idt.{
  Idt, IdtEntry, load_idt_entry, irq_init, load_irqs, irq_flags, kernel_code_segment,
  initialize_pic, PortWrite,
}

-- The address that the processor calls.
abbrev pub handler_of : IdtEntry → ℕ
handler_of e = e.offset_lowerbits + e.offset_higherbits * 2 ^ 16

-- The vector of an IRQ number.
unfoldable pub vector_of : ℕ → ℕ
vector_of n = if ltb n 8 then 0x20 + n else 0x68 + n

-- An entry that is loaded for the vector itself is a ring-0 interrupt gate to the handler, and
-- the other vectors keep theirs.
load_idt_entry_lem :
    (v base : ℕ) (idt : Idt)
    → v < 256
    → base < 2 ^ 32
    → (handler_of (load_idt_entry v base kernel_code_segment irq_flags idt v) ≡ base)
      × ((load_idt_entry v base kernel_code_segment irq_flags idt v).flags ≡ 0x8E)
      × ((w : ℕ) → w ≢ v → load_idt_entry v base kernel_code_segment irq_flags idt w ≡ idt w)
unfolding load_idt_entry
load_idt_entry_lem v base idt hv hb = (
  ground (arith, bit_and_mask 16 base, bit_and_mask 16 (base / 2 ^ 16)),
  ground arith,
  λ w other. ground arith,
)

abbrev blank_idt : Idt
blank_idt _ = record {
  offset_lowerbits = 0;
  selector = 0;
  zero_byte = 0;
  flags = 0;
  offset_higherbits = 0;
}

-- The gate of `load_idt_entry`, apart from its vector.
gate_to : ℕ → IdtEntry
unfolding load_idt_entry
gate_to base = load_idt_entry 0 base kernel_code_segment irq_flags blank_idt 0

irq_init-at :
    (irq : ℕ → ℕ) (idt : Idt) (n : ℕ) → n < 16 → irq_init irq idt (vector_of n) ≡ gate_to (irq n)
unfolding irq_init load_irqs load_idt_entry gate_to vector_of
irq_init-at irq idt n h = ground arith

irq_init-other :
    (irq : ℕ → ℕ) (idt : Idt) (v : ℕ)
    → ((v < 0x20) ⊎ ((0x28 ≤ v) × (v < 0x70))) ⊎ (0x78 ≤ v)
    → irq_init irq idt v ≡ idt v
unfolding irq_init load_irqs load_idt_entry
irq_init-other irq idt v other = ground arith

-- The value of the first write to a port: the vector offset (ICW2), for a controller's data port.
unfoldable pub first_to : ℕ → List PortWrite → Option ℕ
first_to port [] = none
first_to port (w ∷ ws) = if w.0 == port then some w.1 else first_to port ws

-- Every IRQ number n < 16 has a present ring-0 interrupt gate to its stub: at vector 0x20 + n for
-- n < 8 and at 0x68 + n from there; all vectors below 0x20, from 0x28 to 0x6F and from 0x78 keep
-- their entries.
pub irq_init-gates :
    (irq : ℕ → ℕ) (idt : Idt) (n : ℕ)
    → n < 16
    → irq n < 2 ^ 32
    → (handler_of (irq_init irq idt (vector_of n)) ≡ irq n)
      × ((irq_init irq idt (vector_of n)).flags ≡ 0x8E)
      × ((v : ℕ)
          → ((v < 0x20) ⊎ ((0x28 ≤ v) × (v < 0x70))) ⊎ (0x78 ≤ v)
          → irq_init irq idt v ≡ idt v)
unfolding gate_to
irq_init-gates irq idt n small address =
    let at = irq_init-at irq idt n small in
    let gate = load_idt_entry_lem 0 (irq n) blank_idt (omega arith) address in
    (ap handler_of at ∙ gate.0, ap (λ (e : IdtEntry). e.flags) at ∙ gate.1, irq_init-other irq idt)

-- At the vectors that `initialize_pic` programs (its first write to a data port is the offset), the
-- eight lines of the master controller (port 0x21) reach the stubs of IRQ 0 to 7, but those of the
-- slave (port 0xA1) reach entries that `irq_init` does not load.
pub irq_init-slave_missed :
    (irq : ℕ → ℕ) (idt : Idt) (master slave line : ℕ)
    → first_to 0x21 initialize_pic ≡ some master
    → first_to 0xA1 initialize_pic ≡ some slave
    → line < 8
    → irq line < 2 ^ 32
    → (handler_of (irq_init irq idt (master + line)) ≡ irq line)
      × (irq_init irq idt (slave + line) ≡ idt (slave + line))
unfolding first_to initialize_pic vector_of
irq_init-slave_missed irq idt master slave line to_master to_slave small address =
    let m : master ≡ 0x20 = ground arith in
    let s : slave ≡ 0x28 = ground arith in
    let at = (irq_init-gates irq idt line (omega arith) address).0 in
    let v : vector_of line ≡ master + line = ground arith in
    (
      subst (λ (w : ℕ). handler_of (irq_init irq idt w) ≡ irq line) v at,
      irq_init-other irq idt (slave + line) (ground arith),
    )
