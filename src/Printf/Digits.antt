-- ===== src/Printf/Digits.antt =====
-- What the conversions of libc/stdio.c print.
use mike_os.Base.{
  ℕ, zero, suc, ◌+◌, ◌-◌, ◌*◌, ◌/◌, ◌%◌, ◌^◌, ◌≤◌, ◌<◌, ◌≡◌, ◌≢◌, refl, arith, ◌==◌, ltb, leb,
  if◌then◌else◌, List, [], ◌∷◌, ◌++◌, length, length-append, some, Bool-cases, inl, inr, ◌∙◌, ap,
  true, false, sub32,
}
use native.Mathlib.Nat.{pow-suc}
use mathlib.Core.List.{append-nil}
use mike_os.Printf.{
  padding, prints, digit, digits_loop, has_flag, pad_right, print_digits, printi, digits_fuel,
}

length-padding : (c n : ℕ) → length (padding c n) ≡ n
unfolding padding
length-padding c zero = refl
length-padding c (suc n) = omega (arith, length-padding c n)

-- `prints` emits as many characters as it counts: the width, or the length of the string where this
-- is more.
prints-count :
    (string : List ℕ) (width pad : ℕ)
    → (length (prints string width pad).0 ≡ (prints string width pad).1)
      × ((prints string width pad).1 ≡ (if ltb width (length string) then length string else width))
unfolding prints
prints-count string width pad =
    let left : ℕ =
      if ltb 0 width
      then (if leb width (length string) then 0 else width - length string)
      else width in
    let padchar : ℕ = if ltb 0 width then (if has_flag pad 2 then 48 else 32) else 32 in
    let before : ℕ = if has_flag pad pad_right then 0 else left in
    let after : ℕ = if has_flag pad pad_right then left else 0 in
    (
      omega (
        arith,
        length-append (padding padchar before) (string ++ padding padchar after),
        length-append string (padding padchar after),
        length-padding padchar before,
        length-padding padchar after,
      ),
      ground arith,
    )

-- The number that decimal digits denote, the first being the highest.
unfoldable pub decimal : ℕ → List ℕ → ℕ
decimal high [] = high
decimal high (c ∷ cs) = decimal (high * 10 + (c - 48)) cs

-- Every character is one of '0' to '9'.
abbrev pub AllDecimal : List ℕ → Type 0
AllDecimal [] = Unit
AllDecimal (c ∷ cs) = (48 ≤ c) × (c ≤ 57) × AllDecimal cs

pub digits_loop-step :
    (fuel b letbase u : ℕ) (s : List ℕ)
    → u ≢ 0
    → digits_loop (suc fuel) b letbase u s
      ≡ digits_loop fuel b letbase (u / b) (digit letbase (u % b) ∷ s)
unfolding digits_loop
digits_loop-step fuel b letbase u s more = ground arith

pub digits_loop-stop :
    (fuel b letbase : ℕ) (s : List ℕ) → digits_loop (suc fuel) b letbase 0 s ≡ some s
unfolding digits_loop
digits_loop-stop fuel b letbase s = refl

decimal-digit :
    (letbase u : ℕ) (s : List ℕ) → decimal (u / 10) (digit letbase (u % 10) ∷ s) ≡ decimal u s
unfolding decimal digit
decimal-digit letbase u s = ap (λ (h : ℕ). decimal h s) (ground arith)

digit-AllDecimal :
    (letbase u : ℕ) (s : List ℕ) → AllDecimal s → AllDecimal (digit letbase (u % 10) ∷ s)
unfolding digit
digit-AllDecimal letbase u s all = (ground arith, ground arith, all)

decimal-digits_loop :
    (fuel k letbase u : ℕ) (s : List ℕ)
    → k ≤ fuel
    → u < 10 ^ k
    → AllDecimal s
    → (t : List ℕ) × (digits_loop (suc fuel) 10 letbase u s ≡ some t)
      × AllDecimal t
      × (decimal 0 t ≡ decimal u s)
      × (length t ≤ k + length s)
decimal-digits_loop fuel zero letbase u s enough small all =
    let none_left : u ≡ 0 = omega arith in
    rw none_left (s, digits_loop-stop fuel 10 letbase s, all, refl, omega arith)
decimal-digits_loop zero (suc k) letbase u s enough small all = absurd (omega arith)
decimal-digits_loop (suc fuel) (suc k) letbase u s enough small all = elim (Bool-cases (u == 0)) [
  | inl equal ↦
      let none_left : u ≡ 0 = ground arith in
      rw none_left (s, digits_loop-stop (suc fuel) 10 letbase s, all, refl, omega arith)
  | inr more ↦
      let r =
        decimal-digits_loop fuel k letbase (u / 10) (digit letbase (u % 10) ∷ s) (omega arith)
          (omega (arith, pow-suc 10 k)) (digit-AllDecimal letbase u s all) in
      (
        r.0,
        digits_loop-step (suc fuel) 10 letbase u s (ground arith) ∙ r.1,
        r.2,
        r.3 ∙ decimal-digit letbase u s,
        omega (arith, r.4),
      )
]

prints-plain : (s : List ℕ) → prints s 0 0 ≡ (s, length s)
unfolding prints padding
prints-plain s = rw (append-nil s) (ground arith)

-- A number that is not 0, printed in decimal without a width: as `%u`, the text is digits '0' to '9'
-- that denote it, at most 10; as `%d`, for a pattern from 2 ^ 31, they come after a minus sign and denote what is
-- missing to 2 ^ 32. So the buffer of 12 bytes holds the text and its 0.
pub printi-decimal :
    (i letbase : ℕ)
    → 0 < i
    → i < 2 ^ 32
    → ((t : List ℕ) × (printi i 10 false 0 0 letbase ≡ some (t, length t))
        × AllDecimal t
        × (decimal 0 t ≡ i)
        × (length t ≤ 10))
      × (2 ^ 31 ≤ i
          → (t : List ℕ) × (printi i 10 true 0 0 letbase ≡ some (45 ∷ t, suc (length t)))
            × AllDecimal t
            × (decimal 0 t ≡ 2 ^ 32 - i)
            × (length t ≤ 10))
unfolding printi print_digits decimal
printi-decimal i letbase positive small =
    let r = enough i letbase small in
    let nonzero : (i == 0) ≡ false = ground arith in
    (
      (r.0, rw (nonzero, r.1) (ap some (prints-plain r.0)), r.2, r.3, r.4),
      λ high.
          let n = sub32 0 i in
          let q = enough n letbase (omega arith) in
          let sign : leb (2 ^ 31) i ≡ true = ground arith in
          (
            q.0,
            rw (nonzero, sign, q.1, sign, print_digits) (ap some (prints-plain (45 ∷ q.0))),
            q.2,
            q.3 ∙ omega arith,
            q.4,
          ),
    )
  where
    enough :
        (u letbase : ℕ)
        → u < 2 ^ 32
        → (t : List ℕ) × (digits_loop digits_fuel 10 letbase u [] ≡ some t)
          × AllDecimal t
          × (decimal 0 t ≡ u)
          × (length t ≤ 10)
    enough u letbase small =
        let r = decimal-digits_loop 32 10 letbase u [] (omega arith) (omega arith) tt in
        (r.0, r.1, r.2, r.3, omega (arith, r.4))
