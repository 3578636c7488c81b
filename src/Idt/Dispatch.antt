-- ===== src/Idt/Dispatch.antt =====
-- Registering a handler and receiving interrupts (kernel/irq.c).
use mike_os.Base.{
  ℕ, ◌≤◌, ◌<◌, ◌≡◌, ◌≢◌, refl, sym, ap, ◌∙◌, write, none, some, Option, leb, if◌then◌else◌, ◌∷◌,
  arith, success, invalid_argument,
}
use mike_os.Idt.{Irqs, irq_ack, default_irq_handler, register_irq, unregister_irq}

register_irq_ok :
    {S : Type 0} (handler : S → S) (n : ℕ) (s : Irqs S)
    → n ≤ 15
    → register_irq (some handler) n s
      ≡ (record s { handlers = write s.handlers n (some handler) }, success)
unfolding register_irq
register_irq_ok handler n s small = ground arith

refused :
    {S : Type 0} (handler : S → S) (n : ℕ) (s : Irqs S)
    → 15 < n
    → register_irq (some handler) n s ≡ (s, invalid_argument)
unfolding register_irq
refused handler n s big = ground arith

unregister_irq_ok :
    {S : Type 0} (handler : S → S) (n : ℕ) (s : Irqs S)
    → n ≤ 15
    → unregister_irq (some handler) n s ≡ (record s { handlers = write s.handlers n none }, success)
unfolding unregister_irq
unregister_irq_ok handler n s small = ground arith

-- What an interrupt does with the handler of its line.
after_handler : {S : Type 0} → Option (S → S) → S → S
after_handler none device = device
after_handler (some handler) device = handler device

run_line :
    {S : Type 0} (n : ℕ) (s : Irqs S) (handler : Option (S → S))
    → s.handlers n ≡ handler
    → default_irq_handler n s ≡ irq_ack n (record s { device = after_handler handler s.device })
unfolding default_irq_handler after_handler
run_line n s none at = rw at refl
run_line n s (some handler) at = rw at refl

-- Of a handler registered for line n: an index above 15 is refused without a change; otherwise
-- an interrupt on line n runs the handler once on the devices' state and then acknowledges it, to
-- the slave's port 0xA0 for n ≥ 8 and to 0x20 for the others, an interrupt on any other line runs
-- what it ran before, and after `unregister_irq` one on line n is acknowledged only.
pub register_irq-dispatch :
    {S : Type 0} (handler other : S → S) (n : ℕ) (s : Irqs S)
    → (15 < n → register_irq (some handler) n s ≡ (s, invalid_argument))
      × (n ≤ 15
          → let r = register_irq (some handler) n s in
            let ack : ℕ = if leb 8 n then 0xA0 else 0x20 in
            (r.1 ≡ success)
            × (default_irq_handler n r.0
                ≡ record r.0 { device = handler s.device; writes = (ack, 0x20) ∷ s.writes })
            × ((m : ℕ)
                → m ≢ n
                → (default_irq_handler m r.0).device ≡ (default_irq_handler m s).device)
            × (default_irq_handler n (unregister_irq (some other) n r.0).0
                ≡ irq_ack n (unregister_irq (some other) n r.0).0))
unfolding irq_ack after_handler
register_irq-dispatch {S} handler other n s = (
  λ big. refused handler n s big,
  λ small.
      let ok = register_irq_ok handler n s small in
      let s' = record s { handlers = write s.handlers n (some handler) } in
      let other_line : (m : ℕ)
          → m ≢ n
          → (default_irq_handler m s').device ≡ (default_irq_handler m s).device =
        λ m different.
          ap (λ (t : Irqs S). t.device) (run_line m s' (s.handlers m) (ground arith))
          ∙ ap (λ (t : Irqs S). t.device) (sym (run_line m s (s.handlers m) refl)) in
      rw (ok, unregister_irq_ok other n s' small)
        (
          λ _. success,
          run_line n _ (some handler) (ground arith),
          λ m different. other_line m different,
          run_line n _ none (ground arith),
        ),
)
