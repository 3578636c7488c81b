-- ===== src/Examples/Formats.antt =====
-- Concrete formats for libc/stdio.c and messages for kernel/logging/logger.c.
use mike_os.Base.{
  ℕ, ◌≡◌, refl, true, false, some, List, [], ◌∷◌, arith, if◌then◌else◌, ◌==◌, done, undefined,
}
use mike_os.Printf.{padding, prints}
use mike_os.Printf.Format.{
  conversion, convert, directive, left_flag, print, print_loop, width_loop, zero_flags,
}
use mike_os.Printf.Directives.{
  AllDirectives, Directive, converts, expected, format_of, literal, percent,
}
use mike_os.Printf.Parse.{print-expected}
use mike_os.Printf.Ends.{Ends, print-Ends}
use mike_os.Printf.Digits.{decimal}
use mike_os.Log.{log_error, log_print}
use mike_os.Log.Console.{log_print-IsStep}
use mike_os.Vga.{VgaState}
use mike_os.Vga.Cursor.{IsPlaced, IsStep}

-- The text "ab" at 100.
abbrev text_at : ℕ → List ℕ
text_at a = if a == 100 then 97 ∷ 98 ∷ [] else []

-- "n=%-05d;%4s%%".
abbrev pieces : List Directive
pieces =
    literal 110
    ∷ literal 61
    ∷ converts true 1 (53 ∷ []) 100
    ∷ literal 59
    ∷ converts false 0 (52 ∷ []) 115
    ∷ percent
    ∷ []

pieces-AllDirectives : AllDirectives pieces
unfolding decimal
pieces-AllDirectives = (
  λ e. absurd (omega arith),
  (
    λ e. absurd (omega arith),
    (
      ((refl, tt), λ e. absurd (omega arith), omega arith, refl),
      (
        λ e. absurd (omega arith),
        (((refl, tt), λ e. absurd (omega arith), omega arith, refl), (tt, tt)),
      ),
    ),
  ),
)

abbrev arguments : List ℕ
arguments = 42 ∷ 100 ∷ []

print-expected_example :
    print text_at (format_of pieces) arguments ≡ expected text_at pieces arguments
print-expected_example = print-expected text_at pieces arguments pieces-AllDirectives

-- "%4s%%" of "ab".
string_printed :
    print text_at (37 ∷ 52 ∷ 115 ∷ 37 ∷ 37 ∷ []) (100 ∷ [])
    ≡ some (done (32 ∷ 32 ∷ 97 ∷ 98 ∷ 37 ∷ [], 5))
unfolding print print_loop directive left_flag zero_flags width_loop conversion convert prints
    padding
string_printed = refl

-- A format that ends behind a flag is read on behind its terminator.
flag_at_the_end : print text_at (37 ∷ 45 ∷ []) (42 ∷ []) ≡ some undefined
unfolding print print_loop directive left_flag zero_flags width_loop conversion
flag_at_the_end = refl

print-Ends_example : Ends (print text_at (37 ∷ 45 ∷ []) arguments)
print-Ends_example = print-Ends text_at (37 ∷ 45 ∷ []) arguments (omega arith, (omega arith, tt))

abbrev screen : VgaState
screen = record { vga_buffer = 0xb8000; color = 7; x = 3; y = 24; memory = λ _. 0 }

screen-IsPlaced : IsPlaced screen
screen-IsPlaced = record { column = omega arith; row = omega arith; fits = omega arith }

percent_printed : print text_at (37 ∷ 37 ∷ []) [] ≡ some (done (37 ∷ [], 1))
unfolding print print_loop directive left_flag zero_flags width_loop
percent_printed = refl

log_print-IsStep_example :
    (t : VgaState) × (log_print text_at log_error (37 ∷ 37 ∷ []) [] screen ≡ some (done t))
    × IsStep screen t
    × (t.color ≡ 7)
log_print-IsStep_example =
    log_print-IsStep text_at log_error (37 ∷ 37 ∷ []) [] (37 ∷ [], 1) screen screen-IsPlaced
      percent_printed (omega arith)
