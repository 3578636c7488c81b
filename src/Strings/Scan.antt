-- ===== src/Strings/Scan.antt =====
-- `char_in_string`, `strspn`, `strpbrk`, `strchr` and `strtok` (libc/string.c).
use mike_os.Base.{
  ℕ, zero, suc, ◌+◌, ◌^◌, ◌<◌, ◌≡◌, ◌≢◌, refl, arith, List, [], ◌∷◌, length, Option, none, some,
  ◌==◌, if◌then◌else◌, ap, ◌∙◌, false, Bool, ◌||◌, u32, sign_extend8,
}
use mike_os.Memory.{Mem}
use mike_os.Strings.{char_in_string, strspn, strspn_loop, strpbrk, strchr, take_token, TokenState}
use mike_os.Strings.Texts.{IsText}
use mike_os.Strings.Compare.{AllBytes}

abbrev pub member : ℕ → List ℕ → Bool
member c [] = false
member c (d ∷ ds) = d == c || member c ds

-- How many of the first bytes of `xs` are in `ds`.
abbrev pub leading : List ℕ → List ℕ → ℕ
leading [] ds = 0
leading (x ∷ xs) ds = if member x ds then suc (leading xs ds) else 0

-- The index of the first byte of `xs` that is in `ds`.
abbrev pub first_of_set : List ℕ → List ℕ → Option ℕ
first_of_set [] ds = none
first_of_set (x ∷ xs) ds =
    if member x ds
    then some 0
    else elim (first_of_set xs ds) [ none ↦ none | some n ↦ some (suc n) ]

abbrev pub offset : ℕ → Option ℕ → Option ℕ
offset p none = none
offset p (some n) = some (p + n)

char_in_string-member :
    (fuel : ℕ) (m : Mem) (c q : ℕ) (ds : List ℕ)
    → IsText m q ds
    → length ds < fuel
    → char_in_string fuel m c q ≡ some (member c ds)
unfolding char_in_string
char_in_string-member zero m c q ds text h = absurd (omega arith)
char_in_string-member (suc fuel) m c q [] text h = ground arith
char_in_string-member (suc fuel) m c q (d ∷ ds) text h =
    ground (arith, char_in_string-member fuel m c (q + 1) ds text.2 (omega arith))

module _ (m : Mem) (q : ℕ) (ds : List ℕ) (set : IsText m q ds) where
  strspn_loop-leading :
      (fuel p n : ℕ) (xs : List ℕ)
      → IsText m p xs
      → length xs + length ds < fuel
      → n + length xs < 2 ^ 32
      → strspn_loop fuel m p q n ≡ some (n + leading xs ds)
  unfolding strspn_loop
  strspn_loop-leading zero p n xs text h small = absurd (omega arith)
  strspn_loop-leading (suc fuel) p n [] text h small = ground arith
  strspn_loop-leading (suc fuel) p n (x ∷ xs) (at, ne, rest) h small =
      let nonzero : (x == 0) ≡ false = ground arith in
      let fits : u32 (n + 1) ≡ n + 1 = omega arith in
      rw (at, nonzero, char_in_string-member fuel m x q ds set (omega arith), fits)
        (ground
          (arith, strspn_loop-leading fuel (p + 1) (n + 1) xs rest (omega arith) (omega arith)))

  strpbrk-offset :
      (fuel p : ℕ) (xs : List ℕ)
      → IsText m p xs
      → length xs + length ds < fuel
      → strpbrk fuel m p q ≡ some (offset p (first_of_set xs ds))
  unfolding strpbrk
  strpbrk-offset zero p xs text h = absurd (omega arith)
  strpbrk-offset (suc fuel) p [] text h = ground arith
  strpbrk-offset (suc fuel) p (x ∷ xs) (at, ne, rest) h =
      let nonzero : (x == 0) ≡ false = ground arith in
      rw (at, nonzero, char_in_string-member fuel m x q ds set (omega arith))
        (ground (arith, strpbrk-offset fuel (p + 1) xs rest (omega arith)))

  -- `strspn` counts the leading bytes that are in the set, and `strpbrk` finds the first byte that
  -- is in the set, or NULL if there is none.
  pub strspn-strpbrk :
      (fuel p : ℕ) (xs : List ℕ)
      → IsText m p xs
      → length xs + length ds < fuel
      → length xs < 2 ^ 32
      → (strspn fuel m p q ≡ some (leading xs ds))
        × (strpbrk fuel m p q ≡ some (offset p (first_of_set xs ds)))
  unfolding strspn
  strspn-strpbrk fuel p xs text h small = (
    strspn_loop-leading fuel p 0 xs text h (omega arith) ∙ ap some (omega arith),
    strpbrk-offset fuel p xs text h,
  )

-- `strchr` does not find the byte 0 that ends a text: the answer is NULL.
strchr-zero :
    (fuel : ℕ) (m : Mem) (p : ℕ) (xs : List ℕ)
    → AllBytes xs
    → IsText m p xs
    → length xs < fuel
    → strchr fuel m p 0 ≡ some none
unfolding strchr
strchr-zero zero m p xs bytes text h = absurd (omega arith)
strchr-zero (suc fuel) m p [] bytes text h = ground arith
strchr-zero (suc fuel) m p (x ∷ xs) bytes (at, ne, rest) h =
    let nonzero : (x == 0) ≡ false = ground arith in
    let differs : (sign_extend8 x == 0) ≡ false = ground arith in
    rw (at, nonzero, differs) (strchr-zero fuel m (p + 1) xs bytes.1 rest (omega arith))

-- When `strtok` returns the last token of a text, which no delimiter follows, it leaves NULL for the
-- next call to go on with.
pub take_token-last :
    (fuel p q : ℕ) (xs ds : List ℕ) (s : TokenState)
    → AllBytes xs
    → xs ≢ []
    → first_of_set xs ds ≡ none
    → IsText s.mem p xs
    → IsText s.mem q ds
    → length xs + length ds < fuel
    → take_token fuel p q s ≡ some (some p, record s { old_str = none })
unfolding take_token
take_token-last fuel p q [] ds s bytes some_text last text set h = absurd (some_text refl)
take_token-last fuel p q (x ∷ xs) ds s bytes some_text last text set h =
    let nonzero : (s.mem p == 0) ≡ false = ground arith in
    let found : strpbrk fuel s.mem p q ≡ some none =
      strpbrk-offset s.mem q ds set fuel p (x ∷ xs) text h ∙ ap (λ o. some (offset p o)) last in
    let end = strchr-zero fuel s.mem p (x ∷ xs) bytes text (omega arith) in
    ground (arith, nonzero, found, end)
