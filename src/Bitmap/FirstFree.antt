-- ===== src/Bitmap/FirstFree.antt =====
-- Searching a bitmap for its first set bit (kernel/mm/bitmap_manipulation.c).
use mike_os.Base.{
  ℕ, zero, suc, ◌+◌, ◌*◌, ◌/◌, ◌%◌, ◌≤◌, ◌<◌, ◌≡◌, refl, ◌⊎◌, inl, inr, arith, none, some, Option,
  Bool-cases, Option-cases, subst, ◌==◌, ==_iff,
}
use mike_os.Memory.{Mem, IsBytes, get_msb_index}
use mike_os.Memory.Bytes.{get_msb_index-first}
use mike_os.Memory.Ranges.{bit_of}
use mike_os.Bitmap.{first_nonzero, set_next_free_page_index, no_available_page}

abbrev FirstNonzero : ℕ → ℕ → Mem → Option ℕ → Type 0
FirstNonzero left i bitmap none = (j : ℕ) → i ≤ j → j < i + left → bitmap j ≡ 0
FirstNonzero left i bitmap (some r) =
    (i ≤ r) × (r < i + left) × (0 < bitmap r) × ((j : ℕ) → i ≤ j → j < r → bitmap j ≡ 0)

FirstNonzero-step :
    (left i : ℕ) (bitmap : Mem) (r : Option ℕ)
    → bitmap i ≡ 0
    → FirstNonzero left (i + 1) bitmap r
    → FirstNonzero (suc left) i bitmap r
FirstNonzero-step left i bitmap none clear first = λ j p q. elim (Bool-cases (i == j)) [
  | inl same ↦ ground (arith, same)
  | inr other ↦ first j (ground (arith, other)) (omega arith)
]
FirstNonzero-step left i bitmap (some r) clear first = (
  omega arith,
  omega arith,
  first.2,
  λ j p q. elim (Bool-cases (i == j)) [
    | inl same ↦ ground (arith, same)
    | inr other ↦ first.3 j (ground (arith, other)) q
  ],
)

first_nonzero-First :
    (left i : ℕ) (bitmap : Mem) → FirstNonzero left i bitmap (first_nonzero left i bitmap)
unfolding first_nonzero
first_nonzero-First zero i bitmap = λ j p q. absurd (omega arith)
first_nonzero-First (suc left) i bitmap = elim (Bool-cases (bitmap i == 0)) [
  | inl clear ↦ rw clear (
      FirstNonzero-step left i bitmap (first_nonzero left (i + 1) bitmap)
        ((==_iff (bitmap i) 0).0 clear) (first_nonzero-First left (i + 1) bitmap))
  | inr found ↦
      rw found (omega arith, omega arith, ground (arith, found), λ j p q. absurd (omega arith))
]

-- Bit `n` is the first set bit of the bitmap from byte `lo` on.
pub record IsFirstFree (bitmap : Mem) (lo n : ℕ) : Type 0 where
  pub from : lo * 8 ≤ n
  pub free : bit_of bitmap 0 n ≡ 1
  pub before : (k : ℕ) → lo * 8 ≤ k → k < n → bit_of bitmap 0 k ≡ 0

module _ {bitmap : Mem} (bytes : IsBytes bitmap) (left lo : ℕ) where
  -- The first byte other than 0, with its first set bit, is the first set bit of the bitmap.
  pub first_nonzero-some :
      (i : ℕ)
      → first_nonzero left lo bitmap ≡ some i
      → IsFirstFree bitmap lo (i * 8 + get_msb_index (bitmap i))
        × (i * 8 + get_msb_index (bitmap i) < (lo + left) * 8)
  first_nonzero-some i e =
      let first = subst (FirstNonzero left lo bitmap) e (first_nonzero-First left lo bitmap) in
      let bit = get_msb_index-first (bitmap i) first.2 (bytes i) in
      (
        record {
          from = omega arith;
          free = ground (arith, bit.1);
          before = λ k p q. ground (arith, bit.2 (k % 8), first.3 (k / 8));
        },
        omega arith,
      )

  pub first_nonzero-none :
      first_nonzero left lo bitmap ≡ none
      → (k : ℕ) → lo * 8 ≤ k
      → k < (lo + left) * 8
      → bit_of bitmap 0 k ≡ 0
  first_nonzero-none e k p q =
      let first = subst (FirstNonzero left lo bitmap) e (first_nonzero-First left lo bitmap) in
      ground (arith, first (k / 8))

-- `set_next_free_page_index` stores the index of the first set bit of a bitmap of `size` bytes, or
-- `NO_AVAILABLE_PAGE` if every bit is clear.
pub set_next_free_page_index_lem :
    {bitmap : Mem} (size : ℕ)
    → IsBytes bitmap
    → (IsFirstFree bitmap 0 (set_next_free_page_index bitmap size)
        × (set_next_free_page_index bitmap size < size * 8))
      ⊎ ((set_next_free_page_index bitmap size ≡ no_available_page)
          × ((k : ℕ) → k < size * 8 → bit_of bitmap 0 k ≡ 0))
unfolding set_next_free_page_index
set_next_free_page_index_lem {bitmap} size bytes =
    elim (Option-cases (first_nonzero size 0 bitmap)) [
      | inl e ↦ inr (
        rw (e, set_next_free_page_index) refl,
        λ k h. first_nonzero-none bytes size 0 e k (omega arith) (omega arith),
      )
      | inr (i, e) ↦
          let found = first_nonzero-some bytes size 0 i e in
          inl (
            rw (e, set_next_free_page_index) found.0,
            rw (e, set_next_free_page_index) (omega (arith, found.1)),
          )
    ]
