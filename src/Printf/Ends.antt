-- ===== src/Printf/Ends.antt =====
-- `print` (libc/stdio.c) ends on every format: the fuel of the model is never used up.
use mike_os.Base.{
  ℕ, zero, suc, ◌+◌, ◌-◌, ◌*◌, ◌/◌, ◌%◌, ◌^◌, ◌≤◌, ◌<◌, ◌≡◌, ◌≢◌, inl, inr, refl, ap, ◌∙◌, Bool,
  true, false, ◌&&◌, none, some, List, [], ◌∷◌, arith, bit_or, if◌then◌else◌, length, Option-cases,
  Bool-cases, leb, ◌==◌, sub32, Outcome, done, undefined,
}
use mike_os.Printf.{digit, digits_loop, pad_zero, printi}
use mike_os.Printf.Format.{
  Printed, before, conversion, convert, directive, is_conversion, left_flag, print, print_loop,
  width_loop, zero_flags,
}
use mike_os.Printf.Digits.{digits_loop-step, digits_loop-stop}
use native.Mathlib.Nat.{pow-suc}

-- A loop that divides by the base has a round for each bit.
digits_loop-ends :
    (fuel k b letbase u : ℕ) (s : List ℕ)
    → ((v : ℕ) → v / b ≤ v / 2)
    → k ≤ fuel
    → u < 2 ^ k
    → (t : List ℕ) × (digits_loop (suc fuel) b letbase u s ≡ some t)
digits_loop-ends fuel zero b letbase u s halves enough small =
    let none_left : u ≡ 0 = omega arith in rw none_left (s, digits_loop-stop fuel b letbase s)
digits_loop-ends zero (suc k) b letbase u s halves enough small = absurd (omega arith)
digits_loop-ends (suc fuel) (suc k) b letbase u s halves enough small = elim (Bool-cases (u == 0)) [
  | inl equal ↦
      let none_left : u ≡ 0 = ground (arith, equal) in
      rw none_left (s, digits_loop-stop (suc fuel) b letbase s)
  | inr more ↦
      let half = halves u in
      let (t, ends) =
        digits_loop-ends fuel k b letbase (u / b) (digit letbase (u % b) ∷ s) halves (omega arith)
          (omega (arith, pow-suc 2 k)) in
      (t, digits_loop-step (suc fuel) b letbase u s (λ e. ground (arith, more, e)) ∙ ends)
]

printi-ends :
    (i b : ℕ) (sg : Bool) (width pad letbase : ℕ)
    → ((v : ℕ) → v / b ≤ v / 2)
    → i < 2 ^ 32
    → (out : List ℕ × ℕ) × (printi i b sg width pad letbase ≡ some out)
unfolding printi
printi-ends i b sg width pad letbase halves word =
    let neg = sg && (b == 10) && leb (2 ^ 31) i in
    let u = if neg then sub32 0 i else i in
    let fits : u < 2 ^ 32 = elim (Bool-cases neg) [
      | inl e ↦ rw e (omega arith)
      | inr e ↦ rw e word
    ] in
    let (t, ends) = digits_loop-ends 32 32 b letbase u [] halves (omega arith) fits in
    elim (Bool-cases (i == 0)) [
      | inl nothing ↦ rw (nothing, printi) (_, refl)
      | inr more ↦ rw (more, printi, ends) (_, refl)
    ]

abbrev pub AllWords : List ℕ → Type 0
AllWords [] = Unit
AllWords (arg ∷ args) = (arg < 2 ^ 32) × AllWords args

abbrev pub Ends : Printed → Type 0
Ends run = (result : Outcome (List ℕ × ℕ)) × (run ≡ some result)

before-Ends : (out : List ℕ × ℕ) (run : Printed) → Ends run → Ends (before out run)
before-Ends out run (undefined, ends) = rw ends (_, refl)
before-Ends out run (done r, ends) = rw ends (_, refl)

left_flag-length : (format : List ℕ) → length (left_flag format).1 ≤ length format
unfolding left_flag
left_flag-length [] = omega arith
left_flag-length (c ∷ format) = ground arith

zero_flags-length : (pad : ℕ) (format : List ℕ) → length (zero_flags pad format).1 ≤ length format
unfolding zero_flags
zero_flags-length pad [] = omega arith
zero_flags-length pad (c ∷ format) = ground (arith, zero_flags-length (bit_or pad pad_zero) format)

width_loop-length :
    (width : ℕ) (format : List ℕ) → length (width_loop width format).1 ≤ length format
unfolding width_loop
width_loop-length width [] = omega arith
width_loop-length width (c ∷ format) =
    ground (arith, width_loop-length (width * 10 + (c - 48)) format)

module _ (text_at : ℕ → List ℕ) where
  convert-Ends : (c arg width pad : ℕ) → arg < 2 ^ 32 → convert text_at c arg width pad ≢ some none
  unfolding convert
  convert-Ends c arg width pad word lost =
      let (out1, ends1) = printi-ends arg 10 true width pad 97 (λ v. omega arith) word in
      let (out2, ends2) = printi-ends arg 16 false width pad 97 (λ v. omega arith) word in
      let (out3, ends3) = printi-ends arg 16 false width pad 65 (λ v. omega arith) word in
      let (out4, ends4) = printi-ends arg 10 false width pad 97 (λ v. omega arith) word in
      ground (arith, lost, ends1, ends2, ends3, ends4)

  -- What follows is printed to an end when it is no longer than the bound.
  abbrev Follows : ℕ → (List ℕ → List ℕ → Printed) → Type 0
  Follows bound next =
      (format args : List ℕ) → length format ≤ bound → AllWords args → Ends (next format args)

  conversion-Ends :
      (bound width pad : ℕ) (next : List ℕ → List ℕ → Printed) (format args : List ℕ)
      → Follows bound next
      → length format ≤ bound
      → AllWords args
      → Ends (conversion text_at next width pad format args)
  unfolding conversion
  conversion-Ends bound width pad next [] args follows short words = (_, refl)
  conversion-Ends bound width pad next (c ∷ format) [] follows short words =
      elim (Bool-cases (is_conversion c)) [
        | inl known ↦ rw (known, conversion) (_, refl)
        | inr unknown ↦ rw (unknown, conversion) (follows format [] (omega arith) tt)
      ]
  conversion-Ends bound width pad next (c ∷ format) (arg ∷ args) follows short (word, words) =
      elim (Option-cases (convert text_at c arg width pad)) [
        | inl unknown ↦
            rw (unknown, conversion) (follows format (arg ∷ args) (omega arith) (word, words))
        | inr (converted, known) ↦ elim (Option-cases converted) [
          | inl lost ↦ absurd (convert-Ends c arg width pad word (known ∙ ap some lost))
          | inr (out, printed) ↦
              let emits = known ∙ ap some printed in
              rw (emits, conversion) (before-Ends out _ (follows format args (omega arith) words))
        ]
      ]

  directive-Ends :
      (bound : ℕ) (next : List ℕ → List ℕ → Printed) (format args : List ℕ)
      → Follows bound next
      → length format ≤ bound
      → AllWords args
      → Ends (directive text_at next format args)
  unfolding directive
  directive-Ends bound next [] args follows short words = (_, refl)
  directive-Ends bound next (c ∷ format) args follows short words =
      let (left, format1) = left_flag (c ∷ format) in
      let (pad, format2) = zero_flags left format1 in
      let (width, format3) = width_loop 0 format2 in
      let shorter : length format3 ≤ bound = omega (
        arith,
        left_flag-length (c ∷ format),
        zero_flags-length left format1,
        width_loop-length 0 format2,
      ) in
      elim (Bool-cases (c == 37)) [
        | inl twice ↦
            rw (twice, directive)
              (before-Ends (37 ∷ [], 1) _ (follows format args (omega arith) words))
        | inr other ↦ elim (Bool-cases (leb (2 ^ 31) width)) [
          | inl wide ↦ rw (other, directive, wide) (_, refl)
          | inr fits ↦
              rw (other, directive, fits)
                (conversion-Ends bound width pad next format3 args follows shorter words)
        ]
      ]

  print_loop-Ends :
      (fuel : ℕ) (format args : List ℕ)
      → length format < fuel
      → AllWords args
      → Ends (print_loop text_at fuel format args)
  unfolding print_loop
  print_loop-Ends zero format args enough words = absurd (omega arith)
  print_loop-Ends (suc fuel) [] args enough words = (_, refl)
  print_loop-Ends (suc fuel) (c ∷ format) args enough words = elim (Bool-cases (c == 37)) [
    | inl starts ↦
        rw (starts, print_loop)
          (directive-Ends (length format) (print_loop text_at fuel) format args
            (λ rest args' short words'. print_loop-Ends fuel rest args' (omega arith) words')
            (omega arith) words)
    | inr plain ↦
        rw (plain, print_loop)
          (before-Ends (c ∷ [], 1) _ (print_loop-Ends fuel format args (omega arith) words))
  ]

  -- On every format and 32-bit arguments, `print` ends: it returns, or comes to undefined behaviour.
  pub print-Ends : (format args : List ℕ) → AllWords args → Ends (print text_at format args)
  unfolding print
  print-Ends format args words = print_loop-Ends (length format + 1) format args (omega arith) words
