-- ===== src/Strings/Compare.antt =====
-- `strcmp` (libc/string.c) against a comparison of texts.
use mike_os.Base.{
  ℕ, zero, suc, ◌+◌, ◌<◌, ◌≡◌, ◌↔◌, refl, arith, List, [], ◌∷◌, length, some, ◌==◌, if◌then◌else◌,
  ap, ◌∙◌, sym, Bool-cases, inl, inr,
}
use mike_os.Base.Int.{ℤ, pos, negsuc}
use mike_os.Memory.{Mem}
use mike_os.Strings.{strcmp, char_diff}
use mike_os.Strings.Texts.{IsText}

abbrev pub AllBytes : List ℕ → Type 0
AllBytes [] = Unit
AllBytes (x ∷ xs) = (x < 256) × AllBytes xs

-- The order of texts that `strcmp` computes: -1 or 1 where one text is a prefix of the other, and
-- the difference of the first bytes that differ otherwise.
unfoldable pub compare_texts : List ℕ → List ℕ → ℤ
compare_texts [] [] = pos 0
compare_texts [] (y ∷ ys) = negsuc 0
compare_texts (x ∷ xs) [] = pos 1
compare_texts (x ∷ xs) (y ∷ ys) = if x == y then compare_texts xs ys else char_diff x y

-- `strcmp` of two texts ends and is their comparison.
pub strcmp-compare_texts :
    (fuel : ℕ) (m : Mem) (p q : ℕ) (xs ys : List ℕ)
    → IsText m p xs
    → IsText m q ys
    → length xs < fuel
    → strcmp fuel m p q ≡ some (compare_texts xs ys)
unfolding strcmp compare_texts
strcmp-compare_texts zero m p q xs ys s t h = absurd (omega arith)
strcmp-compare_texts (suc fuel) m p q [] [] s t h = ground arith
strcmp-compare_texts (suc fuel) m p q [] (y ∷ ys) s t h = ground arith
strcmp-compare_texts (suc fuel) m p q (x ∷ xs) [] s t h = ground arith
strcmp-compare_texts (suc fuel) m p q (x ∷ xs) (y ∷ ys) s t h =
    ground (arith, strcmp-compare_texts fuel m (p + 1) (q + 1) xs ys s.2 t.2 (omega arith))

char_diff-zero : (a b : ℕ) → a < 256 → b < 256 → char_diff a b ≡ pos 0 → a ≡ b
char_diff-zero a b ha hb e = ground arith

compare_texts-zero :
    (xs ys : List ℕ) → AllBytes xs → AllBytes ys → compare_texts xs ys ≡ pos 0 → xs ≡ ys
unfolding compare_texts
compare_texts-zero [] [] bx by e = refl
compare_texts-zero [] (y ∷ ys) bx by e = absurd (ground arith)
compare_texts-zero (x ∷ xs) [] bx by e = absurd (ground arith)
compare_texts-zero (x ∷ xs) (y ∷ ys) bx by e = elim (Bool-cases (x == y)) [
  | inl same ↦ ground (arith, same, compare_texts-zero xs ys bx.1 by.1)
  | inr other ↦ absurd (ground (arith, other, char_diff-zero x y bx.0 by.0))
]

compare_texts_refl : (xs : List ℕ) → compare_texts xs xs ≡ pos 0
unfolding compare_texts
compare_texts_refl [] = refl
compare_texts_refl (x ∷ xs) = ground (arith, compare_texts_refl xs)

-- `strcmp` of two texts is 0 exactly when they are equal.
pub strcmp-zero_iff :
    (fuel : ℕ) (m : Mem) (p q : ℕ) (xs ys : List ℕ)
    → AllBytes xs
    → AllBytes ys
    → IsText m p xs
    → IsText m q ys
    → length xs < fuel
    → (strcmp fuel m p q ≡ some (pos 0)) ↔ (xs ≡ ys)
strcmp-zero_iff fuel m p q xs ys bx by s t h =
    let value = strcmp-compare_texts fuel m p q xs ys s t h in
    (
      λ e. compare_texts-zero xs ys bx by (cc (value)),
      λ e. value ∙ ap (λ l. some (compare_texts xs l)) (sym e) ∙ ap some (compare_texts_refl xs),
    )

abbrev pub negate : ℤ → ℤ
negate (pos zero) = pos 0
negate (pos (suc n)) = negsuc n
negate (negsuc n) = pos (suc n)

char_diff-negate : (a b : ℕ) → a < 256 → b < 256 → char_diff a b ≡ negate (char_diff b a)
char_diff-negate a b ha hb = ground arith

compare_texts-negate :
    (xs ys : List ℕ)
    → AllBytes xs
    → AllBytes ys
    → compare_texts xs ys ≡ negate (compare_texts ys xs)
unfolding compare_texts
compare_texts-negate [] [] bx by = refl
compare_texts-negate [] (y ∷ ys) bx by = refl
compare_texts-negate (x ∷ xs) [] bx by = refl
compare_texts-negate (x ∷ xs) (y ∷ ys) bx by = elim (Bool-cases (x == y)) [
  | inl same ↦ ground (arith, same, compare_texts-negate xs ys bx.1 by.1)
  | inr other ↦ ground (arith, other, char_diff-negate x y bx.0 by.0)
]

-- With its arguments exchanged `strcmp` returns the negated value.
strcmp-negate :
    (fuel : ℕ) (m : Mem) (p q : ℕ) (xs ys : List ℕ) (r : ℤ)
    → AllBytes xs
    → AllBytes ys
    → IsText m p xs
    → IsText m q ys
    → length xs < fuel
    → length ys < fuel
    → strcmp fuel m p q ≡ some r
    → strcmp fuel m q p ≡ some (negate r)
strcmp-negate fuel m p q xs ys r bx by s t hx hy e =
    let forward : compare_texts xs ys ≡ r = cc (strcmp-compare_texts fuel m p q xs ys s t hx) in
    strcmp-compare_texts fuel m q p ys xs t s hy
    ∙ ap some (compare_texts-negate ys xs by bx ∙ ap negate forward)
