-- ===== src/Kmalloc/Free.antt =====
-- `kfree` (kernel/mm/kmalloc.c) against the list of the free blocks.
use mike_os.Base.{
  ℕ, zero, suc, ◌-◌, ◌^◌, ◌<◌, ◌≡◌, ◌≢◌, refl, ap, ◌∙◌, false, some, List, [], ◌∷◌, ◌++◌, arith,
  length, ◌==◌, sub32,
}
use mike_os.Base.Chain.{
  Distinct, Distinct-append, IsChain, NotIn, Slot, end_slot, end_slot-next_of, head, linked-IsChain,
  next_of,
}
use mike_os.Kmalloc.{Blocks, get_slot, kfree, last_slot, set_slot}

-- The free list holds the blocks `xs`, in order.
pub record IsFreeList (b : Blocks) (xs : List ℕ) : Type 0 where
  pub chain : IsChain b.next_free_block b.free_blocks xs
  pub distinct : Distinct xs

last_slot-end :
    (fuel : ℕ) (slot : Slot) (b : Blocks) (xs : List ℕ)
    → IsChain b.next_free_block (get_slot slot b) xs
    → length xs < fuel
    → last_slot fuel slot b ≡ some (end_slot slot xs)
unfolding last_slot
last_slot-end zero slot b xs chain h = absurd (omega arith)
last_slot-end (suc fuel) slot b [] chain h = rw chain
last_slot-end (suc fuel) slot b (x ∷ xs) (at, ne, rest) h =
    let nonzero : (x == 0) ≡ false = ground arith in
    rw (at, nonzero)
      (last_slot-end fuel (next_of x) b xs rest (omega arith) ∙ ap some (end_slot-next_of x xs))

freed-IsFreeList :
    (b : Blocks) (blk : ℕ) (xs : List ℕ)
    → blk ≢ 0
    → NotIn blk xs
    → IsFreeList b xs
    → IsFreeList (set_slot (next_of blk) 0 (set_slot (end_slot head xs) blk b)) (xs ++ blk ∷ [])
unfolding set_slot
freed-IsFreeList b blk [] pos out free = record {
  chain = (refl, pos, ground arith);
  distinct = (tt, tt);
}
freed-IsFreeList b blk (x ∷ xs) pos out free = record {
  chain = (
    free.chain.0,
    free.chain.1,
    linked-IsChain b.next_free_block blk x xs pos out free.distinct free.chain.2,
  );
  distinct = Distinct-append (x ∷ xs) blk free.distinct out;
}

-- `kfree` of a block that is not in the free list appends it to the list and keeps its size.
pub kfree-append :
    (fuel address : ℕ) (b : Blocks) (xs : List ℕ)
    → 8 < address
    → address < 2 ^ 32
    → NotIn (address - 8) xs
    → length xs < fuel
    → IsFreeList b xs
    → (b' : Blocks) × (kfree fuel address b ≡ some b')
      × IsFreeList b' (xs ++ (address - 8) ∷ [])
      × (b'.block_size ≡ b.block_size)
unfolding kfree get_slot
kfree-append fuel address b xs above below out enough free =
    let blk : sub32 address 8 ≡ address - 8 = omega arith in
    let walk = last_slot-end fuel head b xs free.chain enough in
    (
      set_slot (next_of (address - 8)) 0 (set_slot (end_slot head xs) (address - 8) b),
      rw (kfree, walk, blk),
      freed-IsFreeList b (address - 8) xs (ground arith) out free,
      sizes xs,
    )
  where
    sizes :
        (ys : List ℕ)
        → (set_slot
            (next_of (address - 8))
            0
            (set_slot (end_slot head ys) (address - 8) b)).block_size
          ≡ b.block_size
    sizes [] = unfold set_slot in refl
    sizes (y ∷ ys) = unfold set_slot in refl
