-- ===== src/Log.antt =====
-- kernel/logging/logger.c, and what joins libc/stdio.c to the console of kernel/drivers/vga/vga.c: `printf`
-- and `log_print`.
pub mod Console
use mike_os.Base.{ℕ, true, false, Option, none, some, List, [], ◌∷◌, ◌==◌, Outcome, done, undefined}
use mike_os.Printf.Format.{print}
use mike_os.Vga.{VgaState, set_terminal_color, vga_putc}

pub data LogType : Type 0 where
  log_info log_warning log_error log_debug : LogType

-- `printchar` to the console, of one character after the other: each is printed as a text of its own.
unfoldable pub put_all : List ℕ → VgaState → Outcome VgaState
unfolding vga_putc
put_all [] s = done s
put_all (c ∷ text) s = elim (c == 0) [
  | true ↦ put_all text s
  | false ↦ elim (vga_putc c s) [ undefined ↦ undefined | done s' ↦ put_all text s' ]
]

-- `LOG_PREFIXS`.
unfoldable pub log_prefix : LogType → List ℕ
log_prefix log_info = 91 ∷ 73 ∷ 78 ∷ 70 ∷ 79 ∷ 93 ∷ 58 ∷ []
log_prefix log_warning = 91 ∷ 87 ∷ 65 ∷ 82 ∷ 78 ∷ 73 ∷ 78 ∷ 71 ∷ 93 ∷ 58 ∷ []
log_prefix log_error = 91 ∷ 69 ∷ 82 ∷ 82 ∷ 79 ∷ 82 ∷ 93 ∷ 58 ∷ []
log_prefix log_debug = 91 ∷ 68 ∷ 69 ∷ 66 ∷ 85 ∷ 71 ∷ 93 ∷ 58 ∷ []

-- `colors`.
unfoldable pub log_color : LogType → ℕ
log_color log_info = 9
log_color log_warning = 13
log_color log_error = 4
log_color log_debug = 1

abbrev pub vga_default_color : ℕ
vga_default_color = 7

module _ (text_at : ℕ → List ℕ) where
  unfoldable pub printf : List ℕ → List ℕ → VgaState → Option (Outcome VgaState)
  unfolding print put_all
  printf format args s = elim (print text_at format args) [
    | none ↦ none
    | some undefined ↦ some undefined
    | some (done out) ↦ some (put_all out.0 s)
  ]

  -- A step after the one before it.
  abbrev pub then_print :
      Option (Outcome VgaState) → (VgaState → Option (Outcome VgaState)) → Option (Outcome VgaState)
  then_print none next = none
  then_print (some undefined) next = some undefined
  then_print (some (done s)) next = next s

  unfoldable pub log_print : LogType → List ℕ → List ℕ → VgaState → Option (Outcome VgaState)
  unfolding printf log_prefix log_color set_terminal_color
  log_print log_type format args s =
      let colored = set_terminal_color (log_color log_type) s in
      then_print (printf (log_prefix log_type) [] colored) λ s1.
        then_print (printf format args s1) λ s2.
          then_print (printf (10 ∷ []) [] s2)
            λ s3. some (done (set_terminal_color vga_default_color s3))
