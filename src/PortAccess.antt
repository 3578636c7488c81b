-- ===== src/PortAccess.antt =====
-- The port instructions (include/port_io/port_io.h) as an interface, and the monad of a driver that uses
-- them: a driver finishes, panics, or is still waiting for a device.
use mike_os.Base.{ℕ, ◌≡◌, ap, ◌∙◌}

-- A machine with ports: what an instruction reads, and what it makes of the machine.
pub record Ports (S : Type 0) : Type 0 where
  pub reads : ℕ → S → ℕ × S
  pub writes : ℕ → ℕ → S → S
  pub reads_word : ℕ → S → ℕ × S
  pub writes_word : ℕ → ℕ → S → S

pub data Run (A : Type 0) : Type 0 where
  finished : A → Run A
  panicked waiting : Run A

abbrev pub M : Type 0 → Type 0 → Type 0
M S A = S → Run (A × S)

module _ {S : Type 0} where
  infixl 5 ◌>>=◌ ◌>>◌
  abbrev pub bind : {A B : Type 0} → Run (A × S) → (A → M S B) → Run (B × S)
  bind (finished (a, s)) f = f a s
  bind panicked f = panicked
  bind waiting f = waiting

  abbrev pub ◌>>=◌ : {A B : Type 0} → M S A → (A → M S B) → M S B
  m >>= f = λ s. bind (m s) f

  abbrev pub ◌>>◌ : {A B : Type 0} → M S A → M S B → M S B
  m >> k = m >>= λ _. k

  abbrev pub return : {A : Type 0} → A → M S A
  return a s = finished (a, s)

  abbrev pub panic : {A : Type 0} → M S A
  panic s = panicked

  abbrev pub read_port : Ports S → ℕ → M S ℕ
  read_port ports port s = finished (ports.reads port s)

  abbrev pub read_word_port : Ports S → ℕ → M S ℕ
  read_word_port ports port s = finished (ports.reads_word port s)

  abbrev pub write_port : Ports S → ℕ → ℕ → M S (Unit {0})
  write_port ports port value s = finished (tt, ports.writes port value s)

  abbrev pub write_word_port : Ports S → ℕ → ℕ → M S (Unit {0})
  write_word_port ports port value s = finished (tt, ports.writes_word port value s)

  -- A step that finishes hands its result on.
  pub bind-finished :
      {A B : Type 0} {run : Run (A × S)} (f : A → M S B) {result : Run (B × S)} {s : S} {a : A}
      → run ≡ finished (a, s)
      → f a s ≡ result
      → bind run f ≡ result
  bind-finished f run_eq f_eq = ap (λ r. bind r f) run_eq ∙ f_eq

  -- A run that finishes with a result of which P holds.
  abbrev pub Ends : {A : Type 0} → (A → Type 0) → Run (A × S) → Type 0
  Ends {A = A} P run = (a : A) × (s : S) × (run ≡ finished (a, s)) × P a

  pub bind-Ends :
      {A B : Type 0} (P : A → Type 0) (Q : B → Type 0) (run : Run (A × S)) (f : A → M S B)
      → Ends P run
      → ((a : A) (s : S) → P a → Ends Q (f a s))
      → Ends Q (bind run f)
  bind-Ends P Q run f (a, s, run_eq, holds) continue_with =
      let (b, s', f_eq, holds') = continue_with a s holds in
      (b, s', bind-finished f run_eq f_eq, holds')
