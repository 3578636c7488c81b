-- ===== src/Printf/Format.antt =====
-- `print` (libc/stdio.c), over the text of the format. A string among the arguments is found by
-- `text_at`, the text that stands at an address; an argument is a 32-bit word. `undefined` is
-- a read behind the format's terminator or behind the last argument, and a width too large for an `int`.
use mike_os.Base.{
  ℕ, zero, suc, ◌+◌, ◌-◌, ◌*◌, ◌^◌, Bool, true, false, ◌&&◌, ◌||◌, Option, none, some, List, [],
  ◌∷◌, ◌++◌, bit_or, if◌then◌else◌, length, leb, ◌==◌, u8, Outcome, done, undefined,
}
use mike_os.Printf.{pad_right, pad_zero, printi, prints}

-- What is emitted and the count, on fuel for the length of the format.
abbrev pub Printed : Type 0
Printed = Option (Outcome (List ℕ × ℕ))

-- What a conversion emits, before the rest.
abbrev pub before : List ℕ × ℕ → Printed → Printed
before out none = none
before out (some undefined) = some undefined
before out (some (done rest)) = some (done (out.0 ++ rest.0, out.1 + rest.1))

-- `if (*format == '-') { ++format; pad = PAD_RIGHT; }`
unfoldable pub left_flag : List ℕ → ℕ × List ℕ
left_flag [] = (0, [])
left_flag (c ∷ format) = if c == 45 then (pad_right, format) else (0, c ∷ format)

-- `while (*format == '0') { ++format; pad |= PAD_ZERO; }`
unfoldable pub zero_flags : ℕ → List ℕ → ℕ × List ℕ
zero_flags pad [] = (pad, [])
zero_flags pad (c ∷ format) =
    if c == 48 then zero_flags (bit_or pad pad_zero) format else (pad, c ∷ format)

abbrev pub is_digit : ℕ → Bool
is_digit c = leb 48 c && leb c 57

-- The loop that reads the width.
unfoldable pub width_loop : ℕ → List ℕ → ℕ × List ℕ
width_loop width [] = (width, [])
width_loop width (c ∷ format) =
    if is_digit c then width_loop (width * 10 + (c - 48)) format else (width, c ∷ format)

-- The text "(null)".
abbrev pub null_text : List ℕ
null_text = 40 ∷ 110 ∷ 117 ∷ 108 ∷ 108 ∷ 41 ∷ []

abbrev pub is_conversion : ℕ → Bool
is_conversion c = c == 115 || c == 100 || c == 120 || c == 88 || c == 117 || c == 99

module _ (text_at : ℕ → List ℕ) where
  -- What the conversion c emits of an argument; `none` is a character that is none.
  unfoldable pub convert : ℕ → ℕ → ℕ → ℕ → Option (Option (List ℕ × ℕ))
  unfolding prints printi
  convert c arg width pad =
      if c == 115
      then some (some (prints (if arg == 0 then null_text else text_at arg) width pad))
      else if c == 100
      then some (printi arg 10 true width pad 97)
      else if c == 120
      then some (printi arg 16 false width pad 97)
      else if c == 88
      then some (printi arg 16 false width pad 65)
      else if c == 117
      then some (printi arg 10 false width pad 97)
      else if c == 99
      then some (some (prints (if u8 arg == 0 then [] else u8 arg ∷ []) width pad))
      else none

  -- The end of a directive, at the conversion character; `next` prints what follows.
  unfoldable pub conversion : (List ℕ → List ℕ → Printed) → ℕ → ℕ → List ℕ → List ℕ → Printed
  unfolding convert
  conversion next width pad [] args = some undefined
  conversion next width pad (c ∷ format) [] =
      if is_conversion c then some undefined else next format []
  conversion next width pad (c ∷ format) (arg ∷ args) = elim (convert c arg width pad) [
    | none ↦ next format (arg ∷ args)
    | some none ↦ none
    | some (some out) ↦ before out (next format args)
  ]

  -- What follows a `%`.
  unfoldable pub directive : (List ℕ → List ℕ → Printed) → List ℕ → List ℕ → Printed
  unfolding left_flag zero_flags width_loop conversion
  directive next [] args = some (done ([], 0))
  directive next (c ∷ format) args =
      let (left, format1) = left_flag (c ∷ format) in
      let (pad, format2) = zero_flags left format1 in
      let (width, format3) = width_loop 0 format2 in
      if c == 37
      then before (37 ∷ [], 1) (next format args)
      else if leb (2 ^ 31) width
      then some undefined
      else conversion next width pad format3 args

  unfoldable pub print_loop : ℕ → List ℕ → List ℕ → Printed
  unfolding directive
  print_loop zero format args = none
  print_loop (suc fuel) [] args = some (done ([], 0))
  print_loop (suc fuel) (c ∷ format) args = elim (c == 37) [
    | true ↦ directive (print_loop fuel) format args
    | false ↦ before (c ∷ [], 1) (print_loop fuel format args)
  ]

  unfoldable pub print : List ℕ → List ℕ → Printed
  unfolding print_loop
  print format args = print_loop (length format + 1) format args
