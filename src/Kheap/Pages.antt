-- ===== src/Kheap/Pages.antt =====
-- What claiming, freeing and mapping heap pages (kernel/mm/kheap.c) do to the bitmap, the page table
-- and the physical pages.
use mike_os.Base.{
  ℕ, zero, suc, ◌+◌, ◌-◌, ◌*◌, ◌/◌, ◌%◌, ◌^◌, ◌≤◌, ◌<◌, ◌≡◌, ◌≢◌, inl, inr, refl, ap, subst, ◌∙◌,
  true, ◌&&◌, arith, bit_or, if◌then◌else◌, write, success, leb, ltb, ◌==◌, bit_and_mask,
  bit_or_fields, Outcome-cases, done,
}
use mike_os.Kheap.{
  Kheap, address_to_page_table_entry, alloc_and_map_physical_pages, alloc_loop, claim,
  edit_entry_attributes, free_kheap_pages, free_loop, get_free_continuous_blocks_address,
  kheap_begin_address, kheap_end_address, kheap_init, map_physical_address_to_kheap,
  present_writable, search_loop,
}
use mike_os.Memory.{IsBytes, turn_bits_on}
use mike_os.Memory.Bytes.{bit_at-ones}
use mike_os.Memory.Ranges.{bit_of, turn_bits_off_lem}
use mike_os.Memory.Copy.{memset_lem}
use mike_os.Bitmap.{address_to_bit_index, page_boundary}
use mike_os.Bitmap.Pages.{address_to_bit_index_page, page_boundary_lem}
use mike_os.Physical.{
  PhysicalMem, allocate_physical_page, change_page_state, free_physical_page, page_unavailable,
  register_physical_pages, search_page, take_page,
}
use mike_os.Physical.Pages.{change_pages_state_refused, page}

-- Whether the heap's page `k` is available, as a bit.
abbrev pub available : Kheap → ℕ → ℕ
available h k = bit_of h.bitmap 0 k

-- The address of the heap's page `k`.
abbrev pub page_address : ℕ → ℕ
page_address k = kheap_begin_address + k * 4096

pub claim-available :
    (num_pages i index : ℕ) (h : Kheap) (k : ℕ)
    → IsBytes h.bitmap
    → available (claim num_pages i index h).0 k
      ≡ (if leb (i * 8 + index) k && ltb k (i * 8 + index + num_pages) then 0 else available h k)
unfolding claim
claim-available num_pages i index h k bytes =
    ground (arith, turn_bits_off_lem i index num_pages {m = h.bitmap} (k - i * 8) (k / 8) bytes)

module _ (p : ℕ) (inside : p < 1024) where
  bit_index-page : address_to_bit_index (page_address p) kheap_begin_address ≡ p
  bit_index-page =
      let at : (0xC0800 + p) * 4096 ≡ page_address p = omega arith in
      subst (λ a. address_to_bit_index a kheap_begin_address ≡ p) at
        (address_to_bit_index_page 0xC0800 p (omega arith))

  page_boundary-page : page_boundary (page_address p) ≡ page_address p
  page_boundary-page = page_boundary_lem (page_address p) (omega arith) ∙ omega arith

  -- A free at a heap page is accepted, and is the loop over the page table after the bitmap changed.
  free_kheap_pages-page :
      (num_pages : ℕ) (h : Kheap)
      → free_kheap_pages (page_address p) num_pages h ≡ (
        free_loop num_pages
            (address_to_page_table_entry (page_address p))
            (record h { bitmap = turn_bits_on 0 p num_pages h.bitmap }),
        success,
      )
  unfolding free_kheap_pages
  free_kheap_pages-page num_pages h =
      let below : leb kheap_begin_address (page_address p) ≡ true = ground arith in
      let above : ltb (page_address p) kheap_end_address ≡ true = ground arith in
      let aligned : (page_boundary (page_address p) == page_address p) ≡ true =
        ground (arith, page_boundary-page) in
      rw (below, above, aligned, bit_index-page)

pub claim-address :
    (num_pages i index : ℕ) (h : Kheap)
    → i * 8 + index < 1024
    → (claim num_pages i index h).1 ≡ page_address (i * 8 + index)
unfolding claim
claim-address num_pages i index h inside = omega arith

-- After `kheap_init` every page with an index below 32768 counts as available, 32 times the 1024
-- pages of the heap.
kheap_init-available :
    (kheap_page_tables : ℕ) (current_directory : ℕ → ℕ) (h : Kheap) (k : ℕ)
    → k < 32768
    → available (kheap_init kheap_page_tables current_directory h).1 k ≡ 1
unfolding kheap_init
kheap_init-available kheap_page_tables current_directory h k lt =
    ground (arith, memset_lem 0xFF 0 4096 h.bitmap (0 + k / 8), bit_at-ones (k % 8))

-- A page behind the end of the heap uses the page table entry of the page 1024 before it.
page_table_entry-wraps :
    (k : ℕ)
    → k + 1024 < 0x3F800
    → address_to_page_table_entry (page_address (k + 1024))
      ≡ address_to_page_table_entry (page_address k)
unfolding address_to_page_table_entry
page_table_entry-wraps k lt = omega (
  arith,
  bit_and_mask 10 (page_address (k + 1024) / 4096),
  bit_and_mask 10 (page_address k / 4096),
)

-- `free_physical_page` refuses an address that is not that of a page.
pub free_physical_page-inside :
    (a : ℕ) (s : PhysicalMem) → a < 2 ^ 32 → a % 4096 ≢ 0 → (free_physical_page a s).0 ≡ s
unfolding free_physical_page change_page_state
free_physical_page-inside a s lt inside = ground (arith, page_boundary_lem a)

free_loop-physical :
    (left i : ℕ) (h : Kheap)
    → ((j : ℕ) → i ≤ j → j < i + left → (h.table j < 2 ^ 32) × (h.table j % 4096 ≢ 0))
    → (free_loop left i h).physical ≡ h.physical
unfolding free_loop
free_loop-physical zero i h flagged = refl
free_loop-physical (suc left) i h flagged =
    let entry = flagged i (omega arith) (omega arith) in
    let next : Kheap = record h {
      physical = (free_physical_page (h.table i) h.physical).0;
      table = write h.table i 0;
    } in
    free_loop-physical left (i + 1) next
      (λ j p q. ground (arith, flagged j (omega arith) (omega arith)))
    ∙ free_physical_page-inside (h.table i) h.physical entry.0 entry.1

pub allocate-page-aligned :
    (kernel_end : ℕ) (s : PhysicalMem)
    → ((allocate_physical_page kernel_end s).1 % 4096 ≡ 0)
      × ((allocate_physical_page kernel_end s).1 < 2 ^ 32)
unfolding allocate_physical_page search_page take_page
allocate-page-aligned kernel_end s = ground arith

entry-flagged :
    (page : ℕ)
    → page % 4096 ≡ 0
    → page < 2 ^ 32
    → (edit_entry_attributes page present_writable < 2 ^ 32)
      × (edit_entry_attributes page present_writable % 4096 ≢ 0)
unfolding edit_entry_attributes
entry-flagged page aligned small =
    let at : page ≡ page / 4096 * 4096 = omega arith in
    let flags = ap (λ (t : ℕ). bit_or t 3) at ∙ bit_or_fields 12 (page / 4096) 3 (omega arith) in
    (omega (arith, flags), omega (arith, flags))

-- Every entry from `i` up to `end` holds an address with attribute bits.
abbrev Flagged : ℕ → ℕ → Kheap → Type 0
Flagged i end h = (j : ℕ) → i ≤ j → j < end → (h.table j < 2 ^ 32) × (h.table j % 4096 ≢ 0)

alloc_loop-Flagged :
    (kernel_end left i end start : ℕ) (h : Kheap)
    → i + left ≡ end
    → Flagged start i h
    → Flagged start end (alloc_loop kernel_end left i h)
unfolding alloc_loop
alloc_loop-Flagged kernel_end zero i end start h e flagged = λ j p q. flagged j p (omega arith)
alloc_loop-Flagged kernel_end (suc left) i end start h e flagged =
    let page = allocate-page-aligned kernel_end h.physical in
    alloc_loop-Flagged kernel_end left (i + 1) end start _ (omega arith) λ j p q.
      ground
        (arith, flagged j p, entry-flagged (allocate_physical_page kernel_end h.physical).1, page)

-- Freeing heap pages that `alloc_and_map_physical_pages` mapped gives no physical page back: the
-- page table entries carry attribute bits, and `free_physical_page` refuses each of them.
pub free_kheap_pages-leaks :
    (kernel_end p num_pages : ℕ) (h : Kheap)
    → p < 1024
    → let mapped = alloc_and_map_physical_pages kernel_end (page_address p) num_pages h in
      (free_kheap_pages (page_address p) num_pages mapped).0.physical ≡ mapped.physical
unfolding alloc_and_map_physical_pages
free_kheap_pages-leaks kernel_end p num_pages h inside =
    let entry = address_to_page_table_entry (page_address p) in
    let mapped = alloc_loop kernel_end num_pages entry h in
    ap (λ r. r.0.physical) (free_kheap_pages-page p inside num_pages mapped)
    ∙ free_loop-physical num_pages entry
        (record mapped { bitmap = turn_bits_on 0 p num_pages mapped.bitmap })
        (alloc_loop-Flagged kernel_end num_pages entry (entry + num_pages) entry h refl
          (λ j p q. absurd (omega arith)))

search_loop-physical :
    (num_pages num_bytes left i : ℕ) (h h' : Kheap) (address : ℕ)
    → search_loop num_pages num_bytes left i h ≡ done (h', address)
    → h'.physical ≡ h.physical
unfolding search_loop claim
search_loop-physical num_pages num_bytes zero i h h' address e = ground arith
search_loop-physical num_pages num_bytes (suc left) i h h' address e =
    ground (arith, search_loop-physical num_pages num_bytes left (i + 1) h h' address)

registers-nothing :
    (physical_address num_pages : ℕ) (s : PhysicalMem)
    → physical_address < 2 ^ 32
    → num_pages < 2 ^ 32
    → num_pages % 4096 ≢ 0
    → (register_physical_pages physical_address num_pages s).0 ≡ s
unfolding register_physical_pages
registers-nothing physical_address num_pages s hp hn odd =
    ap (λ r. r.0)
      (change_pages_state_refused physical_address num_pages page_unavailable s hp hn
        (inr (inl odd)))

-- `map_physical_address_to_kheap` passes its number of pages where `register_physical_pages` expects
-- the end address: whenever that is no page boundary, the mapped pages are registered nowhere.
map_physical-registers-nothing :
    (physical_address num_pages : ℕ) (h h' : Kheap) (address : ℕ)
    → physical_address < 2 ^ 32
    → num_pages < 2 ^ 32
    → num_pages % 4096 ≢ 0
    → map_physical_address_to_kheap physical_address num_pages h ≡ done (h', address)
    → h'.physical ≡ h.physical
unfolding map_physical_address_to_kheap get_free_continuous_blocks_address
map_physical-registers-nothing physical_address num_pages h h' address hp hn odd got =
    elim (Outcome-cases (get_free_continuous_blocks_address num_pages h)) [
      | inl lost ↦ absurd (ground (arith, lost))
      | inr ((h1, a1), found) ↦
          let kept : h1.physical ≡ h.physical =
            search_loop-physical num_pages _ _ 0 h h1 a1 found in
          let refused = registers-nothing physical_address num_pages h1.physical hp hn odd in
          ground (arith, found, kept, refused)
    ]
