-- ===== src/Printf/Directives.antt =====
-- Formats built from directives, and what `print` (libc/stdio.c) is to emit for them.
-- A directive: a character that stands for itself, `%%`, or a conversion with its flag `-`, a number of flags
-- `0`, the digits of its width and its character.
use mike_os.Base.{
  ℕ, zero, suc, ◌^◌, ◌<◌, ◌≡◌, ◌≢◌, Bool, true, false, none, some, List, [], ◌∷◌, ◌++◌, done,
  undefined,
}
use mike_os.Printf.Format.{Printed, before, convert, is_conversion, is_digit}
use mike_os.Printf.Digits.{decimal}

pub data Directive : Type 0 where
  literal : ℕ → Directive
  percent : Directive
  converts : Bool → ℕ → List ℕ → ℕ → Directive

abbrev pub left_text : Bool → List ℕ → List ℕ
left_text false rest = rest
left_text true rest = 45 ∷ rest

abbrev pub zero_text : ℕ → List ℕ → List ℕ
zero_text zero rest = rest
zero_text (suc n) rest = 48 ∷ zero_text n rest

unfoldable pub format_of : List Directive → List ℕ
format_of [] = []
format_of (literal c ∷ directives) = c ∷ format_of directives
format_of (percent ∷ directives) = 37 ∷ 37 ∷ format_of directives
format_of (converts left fill width c ∷ directives) =
    37 ∷ left_text left (zero_text fill (width ++ c ∷ format_of directives))

abbrev pub AllDigits : List ℕ → Type 0
AllDigits [] = Unit
AllDigits (c ∷ cs) = (is_digit c ≡ true) × AllDigits cs

-- The first character of a text is not c.
abbrev pub Avoids : ℕ → List ℕ → Type 0
Avoids c [] = Unit
Avoids c (d ∷ ds) = d ≢ c

-- A width has digits, the first not 0, and fits an `int`.
abbrev pub IsDirective : Directive → Type 0
IsDirective (literal c) = c ≢ 37
IsDirective percent = Unit
IsDirective (converts left fill width c) =
    AllDigits width × Avoids 48 width × (decimal 0 width < 2 ^ 31) × (is_conversion c ≡ true)

abbrev pub AllDirectives : List Directive → Type 0
AllDirectives [] = Unit
AllDirectives (d ∷ ds) = IsDirective d × AllDirectives ds

-- `PAD_RIGHT` and `PAD_ZERO` of the flags.
abbrev pub pad_of : Bool → ℕ → ℕ
pad_of false zero = 0
pad_of false (suc fill) = 2
pad_of true zero = 1
pad_of true (suc fill) = 3

-- One directive after the other, each conversion with the next argument.
unfoldable pub expected : (ℕ → List ℕ) → List Directive → List ℕ → Printed
expected text_at [] args = some (done ([], 0))
expected text_at (literal c ∷ directives) args =
    before (c ∷ [], 1) (expected text_at directives args)
expected text_at (percent ∷ directives) args =
    before (37 ∷ [], 1) (expected text_at directives args)
expected text_at (converts left fill width c ∷ directives) [] = some undefined
expected text_at (converts left fill width c ∷ directives) (arg ∷ args) =
    elim (convert text_at c arg (decimal 0 width) (pad_of left fill)) [
      | some (some out) ↦ before out (expected text_at directives args)
      | _ ↦ none
    ]
