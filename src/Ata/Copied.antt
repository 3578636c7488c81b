-- ===== src/Ata/Copied.antt =====
-- What a buffer holds after the words of a disk went into it, piece by piece.
-- What is in a buffer after the words p to p + count - 1 of the disk went to its place `at`.
use mike_os.Base.{
  subst₂, ℕ, ◌+◌, ◌-◌, ◌≤◌, ◌<◌, ◌≡◌, ◌⊎◌, inl, inr, subst, ◌∙◌, arith, write, lt_or_le,
}

abbrev pub Copied : (ℕ → ℕ) → ℕ → ℕ → ℕ → (ℕ → ℕ) → (ℕ → ℕ) → Type 0
Copied disk at p count buffer buffer' =
    ((k : ℕ) → k < count → buffer' (at + k) ≡ disk (p + k))
    × ((j : ℕ) → (j < at) ⊎ (at + count ≤ j) → buffer' j ≡ buffer j)

-- Two copies, the second after the first on the disk and in the buffer, are one.
pub Copied-join :
    (disk : ℕ → ℕ) (at p first at' p' second count : ℕ) (a b c : ℕ → ℕ)
    → at' ≡ at + first
    → p' ≡ p + first
    → count ≡ first + second
    → Copied disk at p first a b
    → Copied disk at' p' second b c
    → Copied disk at p count a c
Copied-join disk at p first at' p' second count a b c at_eq p_eq count_eq (new, old) (new', old') =
    (
      (λ k less. elim (lt_or_le k first) [
        | inl early ↦ old' (at + k) (inl (omega arith)) ∙ new k early
        | inr late ↦
            subst₂ (λ i q. c i ≡ disk q) (omega arith) (omega arith)
              (new' (k - first) (omega arith))
      ]),
      (λ j outside. elim outside [
        | inl before ↦ old' j (inl (omega arith)) ∙ old j (inl before)
        | inr after ↦ old' j (inr (omega arith)) ∙ old j (inr (omega arith))
      ]),
    )

pub Copied-write :
    (disk : ℕ → ℕ) (at p word : ℕ) (buffer : ℕ → ℕ)
    → word ≡ disk p
    → Copied disk at p 1 buffer (write buffer at word)
Copied-write disk at p word buffer same = (
  (λ k less.
      let first : 0 ≡ k = omega arith in
      let there : at + 0 ≡ at = omega arith in
      let there' : p + 0 ≡ p = omega arith in
      subst (λ i. write buffer at word (at + i) ≡ disk (p + i)) first
        (rw (there, there') (ground (arith, same)))),
  (λ j outside. ground (arith, outside)),
)
