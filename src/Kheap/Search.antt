-- ===== src/Kheap/Search.antt =====
-- The search for free blocks (kernel/mm/kheap.c): `parse_lookup_table` and
-- `find_continuous_blocks_index`.
use mike_os.Base.{
  ℕ, zero, suc, ◌+◌, ◌-◌, ◌*◌, ◌/◌, ◌%◌, ◌≤◌, ◌<◌, ◌≡◌, ◌≢◌, ◌⊎◌, inl, inr, refl, ap, subst, ◌∙◌,
  false, ◌&&◌, Option, none, some, arith, if◌then◌else◌, write, ==_iff, Bool-cases, leb, ltb, ◌==◌,
  done,
}
use mike_os.Kheap.{lookup_loop, find_continuous_blocks_index, find_loop, parse_lookup_table}
use mike_os.Memory.{IsBytes, Mem, extract_bit}
use mike_os.Memory.Bytes.{extract_bit-bit_at}
use mike_os.Memory.Ranges.{bit_of}

lookup_loop-range :
    (bitmap : Mem) (base left i : ℕ) (table : Mem) (j : ℕ)
    → IsBytes bitmap
    → lookup_loop bitmap base left i table j
      ≡ (if leb i j && ltb j (i + left) then bit_of bitmap base j else table j)
unfolding lookup_loop
lookup_loop-range bitmap base zero i table j bytes = ground arith
lookup_loop-range bitmap base (suc left) i table j bytes = ground (
  arith,
  bytes (base + i / 8),
  extract_bit-bit_at (bitmap (base + i / 8)) (i % 8),
  lookup_loop-range bitmap base left (i + 1)
      (write table i (extract_bit (bitmap (base + i / 8)) (i % 8))) j,
)

-- `parse_lookup_table` writes the bits of the `num_bytes` bytes in order, one to an entry.
pub parse_lookup_table_lem :
    (bitmap : Mem) (base num_bytes : ℕ) (table : Mem) (j : ℕ)
    → IsBytes bitmap
    → j < num_bytes * 8
    → parse_lookup_table bitmap base num_bytes table j ≡ bit_of bitmap base j
unfolding parse_lookup_table
parse_lookup_table_lem bitmap base num_bytes table j bytes h =
    ground (arith, lookup_loop-range bitmap base (num_bytes * 8) 0 table j)

-- One round of the loop at a block that is available, and at one that is not.
module _ (buffer : Mem) (left i num_blocks : ℕ) where
  pub find_loop-available :
      (index : Option ℕ)
      → buffer i ≡ 1
      → find_loop buffer (suc left) i index (suc num_blocks)
        ≡ find_loop buffer left
            (i + 1)
            (elim index [ none ↦ some i | some first ↦ some first ])
            num_blocks
  unfolding find_loop
  find_loop-available index free =
      let more : (suc num_blocks == 0) ≡ false = ground arith in
      let less : suc num_blocks - 1 ≡ num_blocks = omega arith in rw (more, free, less)

  find_loop-taken :
      (index : Option ℕ)
      → buffer i ≢ 1
      → find_loop buffer (suc left) i index (suc num_blocks)
        ≡ find_loop buffer left (i + 1) none (suc num_blocks)
  unfolding find_loop
  find_loop-taken index taken =
      let more : (suc num_blocks == 0) ≡ false = ground arith in
      let test : (buffer i == 1) ≡ false = ground arith in rw (more, test)

find_loop-ne-none :
    (buffer : Mem) (left i : ℕ) (index : Option ℕ) (num_blocks : ℕ)
    → (0 < num_blocks) ⊎ (index ≢ none)
    → find_loop buffer left i index num_blocks ≢ done none
find_loop-ne-none buffer zero i index num_blocks h = unfold find_loop in ground arith
find_loop-ne-none buffer (suc left) i index zero h = unfold find_loop in ground arith
find_loop-ne-none buffer (suc left) i index (suc n) h = elim (Bool-cases (buffer i == 1)) [
  | inl free ↦
      next (λ k ne. find_loop-ne-none buffer left (i + 1) k n (inr ne)) index ((==_iff _ _).0 free)
  | inr taken ↦
      rw (find_loop-taken buffer left i n index (ground (arith, taken)))
        (find_loop-ne-none buffer left (i + 1) none (suc n) (inl (omega arith)))
]
  where
    next :
        ((k : Option ℕ) → k ≢ none → find_loop buffer left (i + 1) k n ≢ done none)
        → (k : Option ℕ) → buffer i ≡ 1
        → find_loop buffer (suc left) i k (suc n) ≢ done none
    next rest none free =
        rw (find_loop-available buffer left i n none free) (rest (some i) (ground arith))
    next rest (some first) free =
        rw (find_loop-available buffer left i n (some first) free)
          (rest (some first) (ground arith))

-- All of the `n` blocks from `i` on have the state.
abbrev pub Run : Mem → ℕ → ℕ → Type 0
Run buffer i n = (j : ℕ) → i ≤ j → j < i + n → buffer j ≡ 1

find_loop-Run :
    (buffer : Mem) (n left i first : ℕ)
    → Run buffer i n
    → n < left
    → find_loop buffer left i (some first) n ≡ done (some first)
find_loop-Run buffer n zero i first run h = absurd (omega arith)
find_loop-Run buffer zero (suc left) i first run h = unfold find_loop in refl
find_loop-Run buffer (suc n) (suc left) i first run h =
    find_loop-available buffer left i n (some first) (run i (omega arith) (omega arith))
    ∙ find_loop-Run buffer n left (i + 1) first (λ j p q. run j (omega arith) (omega arith))
        (omega arith)

find_loop-first :
    (buffer : Mem) (n left i : ℕ)
    → Run buffer i (suc n)
    → suc n < left
    → find_loop buffer left i none (suc n) ≡ done (some i)
find_loop-first buffer n zero i run h = absurd (omega arith)
find_loop-first buffer n (suc left) i run h =
    find_loop-available buffer left i n none (run i (omega arith) (omega arith))
    ∙ find_loop-Run buffer n left (i + 1) i (λ j p q. run j (omega arith) (omega arith))
        (omega arith)

pub find_loop-skip :
    (buffer : Mem) (gap left i n : ℕ) {total c : ℕ}
    → total ≡ left + gap
    → i + gap ≡ c
    → ((j : ℕ) → i ≤ j → j < c → buffer j ≢ 1)
    → find_loop buffer total i none (suc n) ≡ find_loop buffer left c none (suc n)
find_loop-skip buffer zero left i n {total} {c} e at taken =
    let a : total ≡ left = omega arith in let b : c ≡ i = omega arith in rw (a, b)
find_loop-skip buffer (suc gap) left i n {total} e at taken =
    let a : total ≡ suc (left + gap) = omega arith in
    rw a (
      find_loop-taken buffer (left + gap) i n none (taken i (omega arith) (omega arith))
      ∙ find_loop-skip buffer gap left (i + 1) n refl (omega arith)
          (λ j p q. taken j (omega arith) q))

module _ (buffer : Mem) (buffer_size num_blocks : ℕ) (pos : 0 < num_blocks) where
  -- A search for at least one block never answers -1: where too few blocks are available the
  -- function ends without a `return`.
  find-never-fails : find_continuous_blocks_index buffer buffer_size num_blocks ≢ done none
  unfolding find_continuous_blocks_index
  find-never-fails = find_loop-ne-none buffer buffer_size 0 none num_blocks (inl pos)

  -- Where the first available block `c` begins a run of `num_blocks` blocks that ends before the
  -- last entry of the buffer, the search answers `c`.
  pub find-first-Run :
      (c : ℕ)
      → ((j : ℕ) → j < c → buffer j ≢ 1)
      → Run buffer c num_blocks
      → c + num_blocks < buffer_size
      → find_continuous_blocks_index buffer buffer_size num_blocks ≡ done (some c)
  unfolding find_continuous_blocks_index
  find-first-Run c taken run fits =
      let n_eq : suc (num_blocks - 1) ≡ num_blocks = omega arith in
      subst (λ n. find_loop buffer buffer_size 0 none n ≡ done (some c)) n_eq
        (find_loop-skip buffer c (buffer_size - c) 0 (num_blocks - 1) (omega arith) (omega arith)
            (λ j p q. taken j q)
          ∙ find_loop-first buffer (num_blocks - 1) (buffer_size - c) c
              (λ j p q. run j p (omega arith)) (omega arith))

  -- Blocks before a gap are still counted: where a single available block `c` is followed by a gap
  -- and then by only `num_blocks - 1` available blocks, the search answers the block behind the gap.
  pub find-counts-across-gap :
      (c : ℕ)
      → 2 ≤ num_blocks
      → ((j : ℕ) → j < c → buffer j ≢ 1)
      → buffer c ≡ 1
      → buffer (c + 1) ≢ 1
      → Run buffer (c + 2) (num_blocks - 1)
      → c + num_blocks + 1 < buffer_size
      → find_continuous_blocks_index buffer buffer_size num_blocks ≡ done (some (c + 2))
  unfolding find_continuous_blocks_index
  find-counts-across-gap c many taken single gap run fits =
      let n_eq : suc (suc (num_blocks - 2)) ≡ num_blocks = omega arith in
      let left = buffer_size - c - 2 in
      let left_eq : buffer_size - c ≡ suc (suc left) = omega arith in
      let next_eq : c + 1 + 1 ≡ c + 2 = omega arith in
      subst (λ n. find_loop buffer buffer_size 0 none n ≡ done (some (c + 2))) n_eq
        (find_loop-skip buffer c (suc (suc left)) 0 (suc (num_blocks - 2)) (omega arith)
            (omega arith) (λ j p q. taken j q)
          ∙ find_loop-available buffer (suc left) c (suc (num_blocks - 2)) none single
          ∙ find_loop-taken buffer left (c + 1) (num_blocks - 2) (some c) gap
          ∙ ap (λ t. find_loop buffer left t none (suc (num_blocks - 2))) next_eq
          ∙ find_loop-first buffer (num_blocks - 2) left (c + 2) (λ j p q. run j p (omega arith))
              (omega arith))
