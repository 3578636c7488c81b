-- ===== src/Strings/Texts.antt =====
-- Texts in memory, and `strlen` and `strcpy` (libc/string.c).
use mike_os.Base.{
  ℕ, zero, suc, ◌+◌, ◌^◌, ◌<◌, ◌≡◌, ◌≢◌, arith, List, [], ◌∷◌, length, some, ◌==◌, u32, ap, ◌∙◌,
  false, write, ◌⊎◌,
}
use mike_os.Memory.{Mem}
use mike_os.Strings.{strlen, strlen_loop, strcpy}

-- At `p` stands the text `xs`, none of whose bytes is 0, and behind it the byte 0.
abbrev pub IsText : Mem → ℕ → List ℕ → Type 0
IsText m p [] = m p ≡ 0
IsText m p (x ∷ xs) = (m p ≡ x) × (x ≢ 0) × IsText m (p + 1) xs

strlen_loop-length :
    (fuel : ℕ) (m : Mem) (p counter : ℕ) (xs : List ℕ)
    → IsText m p xs
    → length xs < fuel
    → counter + length xs < 2 ^ 32
    → strlen_loop fuel m p counter ≡ some (counter + length xs)
unfolding strlen_loop
strlen_loop-length zero m p counter xs text h small = absurd (omega arith)
strlen_loop-length (suc fuel) m p counter [] text h small = ground arith
strlen_loop-length (suc fuel) m p counter (x ∷ xs) (at, ne, rest) h small =
    let nonzero : (x == 0) ≡ false = ground arith in
    let fits : u32 (counter + 1) ≡ counter + 1 = omega arith in
    rw (at, nonzero, fits)
      (strlen_loop-length fuel m (p + 1) (counter + 1) xs rest (omega arith) (omega arith)
        ∙ ap some (omega arith))

-- `strlen` of a text of fewer than 2 ^ 32 bytes is its length.
pub strlen-length :
    (fuel : ℕ) (m : Mem) (p : ℕ) (xs : List ℕ)
    → IsText m p xs
    → length xs < fuel
    → length xs < 2 ^ 32
    → strlen fuel m p ≡ some (length xs)
unfolding strlen
strlen-length fuel m p xs text h small =
    strlen_loop-length fuel m p 0 xs text h (omega arith) ∙ ap some (omega arith)

-- A write outside a text leaves it.
IsText-write :
    (m : Mem) (p a v : ℕ) (xs : List ℕ)
    → (a < p) ⊎ (p + length xs < a)
    → IsText m p xs
    → IsText (write m a v) p xs
IsText-write m p a v [] apart text = ground arith
IsText-write m p a v (x ∷ xs) apart (at, ne, rest) =
    (ground arith, ne, IsText-write m (p + 1) a v xs (ground arith) rest)

-- `strcpy` to a place that the source and its copy do not share leaves the text at both places, and
-- returns the address behind the copy's byte 0.
pub strcpy-IsText :
    (fuel dest source : ℕ) (m : Mem) (xs : List ℕ)
    → IsText m source xs
    → length xs < fuel
    → (dest + length xs < source) ⊎ (source + length xs < dest)
    → (m' : Mem) × (strcpy fuel dest source m ≡ some (dest + length xs + 1, m'))
      × IsText m' dest xs
      × IsText m' source xs
      × ((a : ℕ) → (a < dest) ⊎ (dest + length xs < a) → m' a ≡ m a)
unfolding strcpy
strcpy-IsText zero dest source m xs text h apart = absurd (omega arith)
strcpy-IsText (suc fuel) dest source m [] text h apart =
    (write m dest 0, rw text (ground arith), ground arith, ground arith, λ a out. ground arith)
strcpy-IsText (suc fuel) dest source m (x ∷ xs) (at, ne, rest) h apart =
    let nonzero : (x == 0) ≡ false = ground arith in
    let copied =
      strcpy-IsText fuel (dest + 1) (source + 1) (write m dest x) xs
        (IsText-write m (source + 1) dest x xs (ground arith) rest) (omega arith) (ground arith) in
    (
      copied.0,
      rw (at, nonzero) (copied.1 ∙ ground arith),
      (ground (arith, copied.4 dest), ne, copied.2),
      (ground (arith, copied.4 source), ne, copied.3),
      λ a out. ground (arith, copied.4 a),
    )
