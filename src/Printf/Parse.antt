-- ===== src/Printf/Parse.antt =====
-- `print` (libc/stdio.c) on the formats of Printf/Directives.
use mike_os.Base.{
  ℕ, zero, suc, ◌+◌, ◌-◌, ◌*◌, ◌^◌, ◌<◌, ◌≡◌, ◌≢◌, inl, inr, refl, ap, ◌∙◌, Bool, true, false,
  Option, none, some, List, [], ◌∷◌, ◌++◌, arith, bit_or, if◌then◌else◌, length, Option-cases, leb,
  length-append, ◌==◌,
}
use mike_os.Printf.{digit}
use mike_os.Printf.Format.{
  Printed, before, conversion, convert, directive, is_conversion, is_digit, left_flag, print,
  print_loop, width_loop, zero_flags,
}
use mike_os.Printf.Digits.{decimal}
use mike_os.Printf.Directives.{
  AllDigits, AllDirectives, Avoids, Directive, IsDirective, converts, expected, format_of,
  left_text, literal, pad_of, percent, zero_text,
}

width_loop-digits :
    (width : ℕ) (digits rest : List ℕ) (c : ℕ)
    → AllDigits digits
    → is_digit c ≡ false
    → width_loop width (digits ++ c ∷ rest) ≡ (decimal width digits, c ∷ rest)
unfolding width_loop decimal
width_loop-digits width [] rest c all other = rw other refl
width_loop-digits width (d ∷ digits) rest c all other =
    rw (all.0, width_loop) (width_loop-digits (width * 10 + (d - 48)) digits rest c all.1 other)

zero_flags-set :
    (pad fill : ℕ) (rest : List ℕ)
    → bit_or pad 2 ≡ pad
    → Avoids 48 rest
    → zero_flags pad (zero_text fill rest) ≡ (pad, rest)
unfolding zero_flags
zero_flags-set pad zero [] set other = refl
zero_flags-set pad zero (c ∷ rest) set other =
    let no_zero : (c == 48) ≡ false = ground (arith, other) in rw no_zero refl
zero_flags-set pad (suc fill) rest set other = rw (set) (zero_flags-set pad fill rest set other)

zero_flags-pad_of :
    (left : Bool) (fill : ℕ) (rest : List ℕ)
    → Avoids 48 rest
    → zero_flags (if left then 1 else 0) (zero_text fill rest) ≡ (pad_of left fill, rest)
unfolding zero_flags
zero_flags-pad_of false zero [] other = refl
zero_flags-pad_of true zero [] other = refl
zero_flags-pad_of false zero (c ∷ rest) other =
    let no_zero : (c == 48) ≡ false = ground (arith, other) in rw no_zero refl
zero_flags-pad_of true zero (c ∷ rest) other =
    let no_zero : (c == 48) ≡ false = ground (arith, other) in rw no_zero refl
zero_flags-pad_of false (suc fill) rest other = zero_flags-set 2 fill rest refl other
zero_flags-pad_of true (suc fill) rest other = zero_flags-set 3 fill rest refl other

left_flag-left_text :
    (left : Bool) (rest : List ℕ)
    → Avoids 45 rest
    → left_flag (left_text left rest) ≡ ((if left then 1 else 0), rest)
unfolding left_flag
left_flag-left_text false [] other = refl
left_flag-left_text false (c ∷ rest) other =
    let no_dash : (c == 45) ≡ false = ground (arith, other) in rw no_dash refl
left_flag-left_text true rest other = refl

-- The text is one of a directive that is not `%%`.
abbrev Starts : List ℕ → Type 0
Starts [] = ⊥
Starts (c ∷ _) = c ≢ 37

-- The width and the conversion are no flag.
width-heads :
    (width : List ℕ) (c : ℕ) (rest : List ℕ)
    → AllDigits width
    → Avoids 48 width
    → is_conversion c ≡ true
    → Avoids 48 (width ++ c ∷ rest) × Avoids 45 (width ++ c ∷ rest) × Starts (width ++ c ∷ rest)
width-heads [] c rest digits lead known = (
  (λ e. ground (arith, known, e)),
  (λ e. ground (arith, known, e)),
  (λ e. ground (arith, known, e)),
)
width-heads (d ∷ width) c rest (digit, digits) lead known =
    (lead, (λ e. ground (arith, digit, e)), (λ e. ground (arith, digit, e)))

zero_text-heads :
    (fill : ℕ) (rest : List ℕ)
    → Avoids 45 rest
    → Starts rest
    → Avoids 45 (zero_text fill rest) × Starts (zero_text fill rest)
zero_text-heads zero rest no_dash starts = (no_dash, starts)
zero_text-heads (suc fill) rest no_dash starts =
    ((λ e. absurd (omega (arith, e))), (λ e. absurd (omega (arith, e))))

left_text-Starts : (left : Bool) (rest : List ℕ) → Starts rest → Starts (left_text left rest)
left_text-Starts false rest starts = starts
left_text-Starts true rest starts = λ e. absurd (omega (arith, e))

length-zero_text :
    (fill : ℕ) (width : List ℕ) (c : ℕ) (rest : List ℕ)
    → length rest < length (zero_text fill (width ++ c ∷ rest))
length-zero_text zero width c rest = omega (arith, length-append width (c ∷ rest))
length-zero_text (suc fill) width c rest = omega (arith, length-zero_text fill width c rest)

length-converts :
    (left : Bool) (fill : ℕ) (width : List ℕ) (c : ℕ) (rest : List ℕ)
    → length rest < length (left_text left (zero_text fill (width ++ c ∷ rest)))
length-converts false fill width c rest = length-zero_text fill width c rest
length-converts true fill width c rest = omega (arith, length-zero_text fill width c rest)

module _ (text_at : ℕ → List ℕ) where
  directive-flags :
      (next : List ℕ → List ℕ → Printed) (text text1 text2 text3 args : List ℕ) (left pad width : ℕ)
      → Starts text
      → left_flag text ≡ (left, text1)
      → zero_flags left text1 ≡ (pad, text2)
      → width_loop 0 text2 ≡ (width, text3)
      → width < 2 ^ 31
      → directive text_at next text args ≡ conversion text_at next width pad text3 args
  unfolding directive
  directive-flags next [] text1 text2 text3 args left pad width starts e1 e2 e3 small =
      absurd starts
  directive-flags next (c ∷ text) text1 text2 text3 args left pad width starts e1 e2 e3 small =
      let other : (c == 37) ≡ false = ground (arith, starts) in
      let fits : leb (2 ^ 31) width ≡ false = ground arith in
      rw (e1, e2, e3, other, fits, directive) refl

  -- What follows the `%` of a conversion.
  converts-parsed :
      (next : List ℕ → List ℕ → Printed) (left : Bool) (fill : ℕ) (width : List ℕ) (c : ℕ)
      (rest args : List ℕ)
      → IsDirective (converts left fill width c)
      → directive text_at next (left_text left (zero_text fill (width ++ c ∷ rest))) args
        ≡ conversion text_at next (decimal 0 width) (pad_of left fill) (c ∷ rest) args
  converts-parsed next left fill width c rest args (digits, lead, small, known) =
      let letter : is_digit c ≡ false = ground (arith, known) in
      let (no_zero, no_dash, starts) = width-heads width c rest digits lead known in
      let (no_dash', starts') = zero_text-heads fill (width ++ c ∷ rest) no_dash starts in
      directive-flags next (left_text left (zero_text fill (width ++ c ∷ rest))) _ _ _ args _ _ _
        (left_text-Starts left _ starts')
        (left_flag-left_text left (zero_text fill (width ++ c ∷ rest)) no_dash')
        (zero_flags-pad_of left fill (width ++ c ∷ rest) no_zero)
        (width_loop-digits 0 width rest c digits letter) small

  convert-known :
      (c arg width pad : ℕ)
      → is_conversion c ≡ true
      → (converted : Option (List ℕ × ℕ)) × (convert text_at c arg width pad ≡ some converted)
  unfolding convert
  convert-known c arg width pad known = elim (Option-cases (convert text_at c arg width pad)) [
    | inl lost ↦ absurd (ground (arith, known, lost))
    | inr converted ↦ converted
  ]

  -- Every conversion ends on a 32-bit argument.
  conversion-expected :
      (next : List ℕ → List ℕ → Printed) (width pad c arg : ℕ) (rest args : List ℕ)
      (result : Printed)
      → is_conversion c ≡ true
      → next rest args ≡ result
      → conversion text_at next width pad (c ∷ rest) (arg ∷ args)
        ≡ elim (convert text_at c arg width pad) as (λ _. Printed) [
          | some (some out) ↦ before out result
          | _ ↦ none
        ]
  unfolding conversion
  conversion-expected next width pad c arg rest args result known follows =
      let (converted, known_eq) = convert-known c arg width pad known in
      elim (Option-cases converted) [
        | inl lost ↦ let stuck = known_eq ∙ ap some lost in rw (stuck, conversion) refl
        | inr (out, printed) ↦
            let emits = known_eq ∙ ap some printed in rw (emits, conversion, follows) refl
      ]

  converts-expected :
      (fuel : ℕ) (left : Bool) (fill : ℕ) (width : List ℕ) (c : ℕ) (directives : List Directive)
      (args : List ℕ)
      → IsDirective (converts left fill width c)
      → ((rest : List ℕ)
          → print_loop text_at fuel (format_of directives) rest ≡ expected text_at directives rest)
      → conversion text_at
          (print_loop text_at fuel)
          (decimal 0 width)
          (pad_of left fill)
          (c ∷ format_of directives)
          args
        ≡ expected text_at (converts left fill width c ∷ directives) args
  unfolding expected conversion
  converts-expected fuel left fill width c directives [] ok follows = rw (ok.3, conversion) refl
  converts-expected fuel left fill width c directives (arg ∷ args) ok follows =
      conversion-expected (print_loop text_at fuel) (decimal 0 width) (pad_of left fill) c arg
        (format_of directives) args (expected text_at directives args) ok.3 (follows args)

  print_loop-expected :
      (fuel : ℕ) (directives : List Directive) (args : List ℕ)
      → AllDirectives directives
      → length (format_of directives) < fuel
      → print_loop text_at fuel (format_of directives) args ≡ expected text_at directives args
  unfolding print_loop expected format_of directive
  print_loop-expected zero directives args all enough = absurd (omega arith)
  print_loop-expected (suc fuel) [] args all enough = refl
  print_loop-expected (suc fuel) (literal c ∷ directives) args (plain, all) enough =
      let other : (c == 37) ≡ false = ground (arith, plain) in
      rw (other, print_loop)
        (ap (before (c ∷ [], 1)) (print_loop-expected fuel directives args all (omega arith)))
  print_loop-expected (suc fuel) (percent ∷ directives) args (_, all) enough =
      (ap (before (37 ∷ [], 1)) (print_loop-expected fuel directives args all (omega arith)))
  print_loop-expected (suc fuel) (converts left fill width c ∷ directives) args (ok, all) enough =
      let shorter : length (format_of directives) < fuel =
        omega (arith, length-converts left fill width c (format_of directives)) in
      converts-parsed (print_loop text_at fuel) left fill width c (format_of directives) args ok
      ∙ converts-expected fuel left fill width c directives args ok
          (λ rest. print_loop-expected fuel directives rest all shorter)

  -- On the format of any sequence of directives, and whatever the arguments are, `print` does what the
  -- directives say, one after the other: flags, width and conversion are read back as they were
  -- written, and each conversion takes the next argument, where there is one.
  pub print-expected :
      (directives : List Directive) (args : List ℕ)
      → AllDirectives directives
      → print text_at (format_of directives) args ≡ expected text_at directives args
  unfolding print
  print-expected directives args all =
      print_loop-expected (length (format_of directives) + 1) directives args all (omega arith)
