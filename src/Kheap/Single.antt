-- ===== src/Kheap/Single.antt =====
-- Claiming a single page of the kernel heap (`get_free_continuous_blocks_address`, kernel/mm/kheap.c).
use mike_os.Base.{
  ℕ, zero, suc, ◌+◌, ◌-◌, ◌*◌, ◌/◌, ◌%◌, ◌≤◌, ◌<◌, ◌≡◌, ◌≢◌, refl, ap, subst, ◌∙◌, true, false,
  Option, none, some, arith, ==_iff, ◌==◌, done, undefined,
}
use mike_os.Kheap.{
  Kheap, after_find, claim, find_continuous_blocks_index, find_loop,
  get_free_continuous_blocks_address, parse_lookup_table, search_loop,
}
use mike_os.Kheap.Pages.{available, claim-address, claim-available, page_address}
use mike_os.Kheap.Search.{
  Run, find-first-Run, find_loop-available, find_loop-skip, parse_lookup_table_lem,
}
use mike_os.Memory.{IsBytes, Mem, get_msb_index}
use mike_os.Memory.Bytes.{bit_at, bit_at-zero, get_msb_index-first}
use mike_os.Bitmap.FirstFree.{IsFirstFree}

-- A byte with no available block is passed over.
search_loop-zero :
    (num_pages num_bytes left i : ℕ) (h : Kheap)
    → h.bitmap i ≡ 0
    → search_loop num_pages num_bytes (suc left) i h
      ≡ search_loop num_pages num_bytes left (i + 1) h
unfolding search_loop
search_loop-zero num_pages num_bytes left i h z =
    let test : (h.bitmap i == 0) ≡ true = (==_iff _ _).1 z in rw test

search_loop-skip :
    (num_pages num_bytes gap left i : ℕ) (h : Kheap) {total c : ℕ}
    → total ≡ left + gap
    → i + gap ≡ c
    → ((j : ℕ) → i ≤ j → j < c → h.bitmap j ≡ 0)
    → search_loop num_pages num_bytes total i h ≡ search_loop num_pages num_bytes left c h
search_loop-skip num_pages num_bytes zero left i h {total} {c} e at clear =
    let a : total ≡ left = omega arith in let b : c ≡ i = omega arith in rw (a, b)
search_loop-skip num_pages num_bytes (suc gap) left i h {total} e at clear =
    let a : total ≡ suc (left + gap) = omega arith in
    rw a (
      search_loop-zero num_pages num_bytes (left + gap) i h (clear i (omega arith) (omega arith))
      ∙ search_loop-skip num_pages num_bytes gap left (i + 1) h refl (omega arith)
          (λ j p q. clear j (omega arith) q))

search_loop-asks :
    (num_pages num_bytes left i : ℕ) (h : Kheap)
    → (h.bitmap i == 0) ≡ false
    → search_loop num_pages num_bytes (suc left) i h
      ≡ after_find num_pages i h (search_loop num_pages num_bytes left (i + 1) h) (
          find_continuous_blocks_index
            (parse_lookup_table h.bitmap i num_bytes (λ _. 0))
            (num_bytes * 8)
            num_pages)
unfolding search_loop
search_loop-asks num_pages num_bytes left i h test = rw test

-- The bounds of the search for one page.
search_rounds : (h : Kheap) → get_free_continuous_blocks_address 1 h ≡ search_loop 1 1 131070 0 h
unfolding get_free_continuous_blocks_address
search_rounds h = refl

find-one-round :
    (buffer : Mem) → find_continuous_blocks_index buffer 8 1 ≡ find_loop buffer 8 0 none 1
find-one-round buffer = unfold find_continuous_blocks_index in refl

find-out-of-blocks :
    (buffer : Mem) (i : ℕ) (index : Option ℕ) (num_blocks : ℕ)
    → find_loop buffer 0 i index num_blocks ≡ undefined
unfolding find_loop
find-out-of-blocks buffer i index num_blocks = refl

module _ (h : Kheap) (bytes : IsBytes h.bitmap) (n : ℕ) (first : IsFirstFree h.bitmap 0 n)
    (small : n / 8 < 131070) where
  abbrev lookup : Mem
  lookup = parse_lookup_table h.bitmap (n / 8) 1 (λ _. 0)

  lookup-bit : (j : ℕ) → j < 8 → lookup j ≡ bit_at (h.bitmap (n / 8)) j
  lookup-bit j lt = ground (arith, parse_lookup_table_lem h.bitmap (n / 8) 1 (λ _. 0) j bytes)

  lookup-before : (j : ℕ) → j < n % 8 → lookup j ≢ 1
  lookup-before j lt = ground (arith, lookup-bit j, first.before (n / 8 * 8 + j))

  lookup-here : lookup (n % 8) ≡ 1
  lookup-here = ground (arith, lookup-bit (n % 8), first.free)

  byte-zero : (j : ℕ) → 0 ≤ j → j < n / 8 → h.bitmap j ≡ 0
  byte-zero j p q = ground (
    arith,
    bytes j,
    get_msb_index-first (h.bitmap j),
    first.before (j * 8 + get_msb_index (h.bitmap j)),
  )

  byte-nonzero : (h.bitmap (n / 8) == 0) ≡ false
  byte-nonzero = ground (arith, first.free, bit_at-zero (n % 8))

  -- The search comes to the byte of the first available page and asks about it.
  search-arrives :
      get_free_continuous_blocks_address 1 h
      ≡ after_find 1
          (n / 8)
          h
          (search_loop 1 1 (131069 - n / 8) (n / 8 + 1) h)
          (find_continuous_blocks_index lookup 8 1)
  search-arrives =
      search_rounds h
      ∙ search_loop-skip 1 1 (n / 8) (suc (131069 - n / 8)) 0 h (omega arith) (omega arith)
          byte-zero
      ∙ search_loop-asks 1 1 (131069 - n / 8) (n / 8) h byte-nonzero

  lookup-Run : Run lookup (n % 8) 1
  lookup-Run j p q =
      let same : n % 8 ≡ j = omega arith in subst (λ k. lookup k ≡ 1) same lookup-here

  pub single-page-claim :
      n % 8 ≢ 7 → get_free_continuous_blocks_address 1 h ≡ done (claim 1 (n / 8) (n % 8) h)
  single-page-claim inner =
      search-arrives
      ∙ ap (after_find 1 (n / 8) h (search_loop 1 1 (131069 - n / 8) (n / 8 + 1) h))
          (find-first-Run lookup 8 1 (omega arith) (n % 8) lookup-before lookup-Run (omega arith))

  -- A request for one page answers the first available page n, a page of the heap that is not the last
  -- of its byte of the bitmap: the address is that of page n, page n is taken, every other page is as available
  -- as before, and the page table and the physical pages are unchanged.
  pub single-page-claimed :
      n % 8 ≢ 7
      → n < 1024
      → (h' : Kheap) × (get_free_continuous_blocks_address 1 h ≡ done (h', page_address n))
        × (available h' n ≡ 0)
        × ((k : ℕ) → k ≢ n → available h' k ≡ available h k)
        × (h'.table ≡ h.table)
        × (h'.physical ≡ h.physical)
  unfolding claim
  single-page-claimed inner inside =
      let place : n / 8 * 8 + n % 8 ≡ n = omega arith in
      let address = claim-address 1 (n / 8) (n % 8) h (omega arith) in
      let h' = (claim 1 (n / 8) (n % 8) h).0 in
      (
        h',
        single-page-claim inner ∙ ap (λ a. done (h', a)) (address ∙ ap page_address place),
        ground (arith, claim-available 1 (n / 8) (n % 8) h n bytes, place),
        λ k apart. ground (arith, claim-available 1 (n / 8) (n % 8) h k bytes, place, apart),
        refl,
        refl,
      )

  find-last : n % 8 ≡ 7 → find_continuous_blocks_index lookup 8 1 ≡ undefined
  find-last last =
      find-one-round lookup
      ∙ find_loop-skip lookup 7 1 0 0 refl (omega arith) (λ j p q. lookup-before j (omega arith))
      ∙ find_loop-available lookup 0 7 0 none (subst (λ k. lookup k ≡ 1) last lookup-here)
      ∙ find-out-of-blocks lookup 8 (some 7) 0

  -- If the first available page is the last page of its byte, a request for one page runs off the
  -- end of `find_continuous_blocks_index`: the address is undefined.
  pub single-page-undefined : n % 8 ≡ 7 → get_free_continuous_blocks_address 1 h ≡ undefined
  single-page-undefined last =
      search-arrives
      ∙ ap (after_find 1 (n / 8) h (search_loop 1 1 (131069 - n / 8) (n / 8 + 1) h))
          (find-last last)
