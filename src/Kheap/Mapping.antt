-- ===== src/Kheap/Mapping.antt =====
-- What `map_physical_address_to_kheap` (kernel/mm/kheap.c) maps.
use mike_os.Base.{
  ℕ, zero, suc, ◌+◌, ◌-◌, ◌*◌, ◌/◌, ◌%◌, ◌^◌, ◌≤◌, ◌<◌, ◌≡◌, ◌⊎◌, inl, inr, sym, ap, ◌∙◌, false,
  ◌&&◌, not, arith, bit_or, if◌then◌else◌, write, leb, ltb, ◌==◌, u32, ◌<<<◌, ◌>>>◌, bit_and_mask,
  bit_or_fields, Outcome-cases, done, done-injective,
}
use mike_os.Kheap.{
  Kheap, address_to_page_table_entry, and_then, claim, edit_entry_attributes,
  get_free_continuous_blocks_address, kheap_begin_address, kheap_end_address,
  kheap_get_physical_address, map_loop, map_physical_address_to_kheap, present_writable,
  search_loop,
}
use mike_os.Kheap.Pages.{page_address}
use mike_os.Physical.{register_physical_pages}
use mike_os.Bitmap.{page_boundary}
use mike_os.Bitmap.Pages.{page_boundary_lem}

search_loop-table :
    (num_pages num_bytes left i : ℕ) (h h' : Kheap) (address : ℕ)
    → search_loop num_pages num_bytes left i h ≡ done (h', address)
    → h'.table ≡ h.table
unfolding search_loop claim
search_loop-table num_pages num_bytes zero i h h' address e = ground arith
search_loop-table num_pages num_bytes (suc left) i h h' address e =
    ground (arith, search_loop-table num_pages num_bytes left (i + 1) h h' address)

map_loop-entries :
    (left i physical_address : ℕ) (table : ℕ → ℕ) (j : ℕ)
    → physical_address + left * 4096 < 2 ^ 32
    → map_loop left i physical_address table j ≡ (
        if leb i j && ltb j (i + left)
        then edit_entry_attributes (physical_address + (j - i) * 4096) present_writable
        else table j)
unfolding map_loop
map_loop-entries zero i physical_address table j fits = ground arith
map_loop-entries (suc left) i physical_address table j fits =
    let next : u32 (physical_address + 4096) ≡ physical_address + 4096 = omega arith in
    let entry = edit_entry_attributes physical_address present_writable in
    rw next (
      ground (
        arith,
        map_loop-entries left (i + 1) (physical_address + 4096) (write table i entry) j
            (omega arith),
      ))

entry-of-page : (k : ℕ) → k < 1024 → address_to_page_table_entry (page_address k) ≡ k
unfolding address_to_page_table_entry
entry-of-page k small = omega (arith, bit_and_mask 10 (page_address k / 4096))

address-of-entry :
    (page : ℕ)
    → page % 4096 ≡ 0
    → page < 2 ^ 32
    → edit_entry_attributes page present_writable >>> 8 <<< 8 ≡ page
unfolding edit_entry_attributes
address-of-entry page aligned small =
    let at : page ≡ page / 4096 * 4096 = omega arith in
    let flags = ap (λ (t : ℕ). bit_or t 3) at ∙ bit_or_fields 12 (page / 4096) 3 (omega arith) in
    omega (arith, flags)

-- The page table after an answer.
map_physical-table :
    (physical_address num_pages p : ℕ) (h h' : Kheap)
    → p < 1024
    → map_physical_address_to_kheap physical_address num_pages h ≡ done (h', page_address p)
    → h'.table ≡ map_loop num_pages p physical_address h.table
unfolding map_physical_address_to_kheap get_free_continuous_blocks_address
map_physical-table physical_address num_pages p h h' small got =
    elim (Outcome-cases (get_free_continuous_blocks_address num_pages h)) [
      | inl lost ↦ absurd (ground (arith, lost))
      | inr ((h1, a1), found) ↦
          let kept : h1.table ≡ h.table = search_loop-table num_pages _ _ 0 h h1 a1 found in
          let finish : Kheap × ℕ → Kheap × ℕ = λ (h2, address). (
            record h2 {
              physical = (register_physical_pages physical_address num_pages h2.physical).0;
              table =
                  map_loop num_pages (address_to_page_table_entry address) physical_address
                    h2.table;
            },
            address,
          ) in
          let pair : finish (h1, a1) ≡ (h', page_address p) =
            done-injective (sym (ap (λ r. and_then r finish) found) ∙ got) in
          let entry : address_to_page_table_entry a1 ≡ p =
            ap (λ r. address_to_page_table_entry r.1) pair ∙ entry-of-page p small in
          sym (ap (λ r. r.0.table) pair)
          ∙ ap (λ e. map_loop num_pages e physical_address h1.table) entry
          ∙ ap (map_loop num_pages p physical_address) kept
    ]

-- If `map_physical_address_to_kheap` answers the page p of the heap, for an aligned range of physical memory
-- below 4 GB, of one page or more, that fits behind p in the heap: the physical address of each page of the
-- answer is that of the page in the range, and the entries of all other pages are as before.
pub map_physical-translates :
    (physical_address num_pages p : ℕ) (h h' : Kheap)
    → physical_address % 4096 ≡ 0
    → physical_address + num_pages * 4096 < 2 ^ 32
    → 0 < num_pages
    → p + num_pages ≤ 1024
    → map_physical_address_to_kheap physical_address num_pages h ≡ done (h', page_address p)
    → ((k : ℕ)
        → k < num_pages
        → kheap_get_physical_address (page_address (p + k)) h' ≡ physical_address + k * 4096)
      × ((j : ℕ) → (j < p) ⊎ (p + num_pages ≤ j) → h'.table j ≡ h.table j)
unfolding kheap_get_physical_address
map_physical-translates physical_address num_pages p h h' aligned below some' inside got =
    let table = map_physical-table physical_address num_pages p h h' (omega arith) got in
    let entry_at : (j : ℕ)
        → h'.table j ≡ (
            if leb p j && ltb j (p + num_pages)
            then edit_entry_attributes (physical_address + (j - p) * 4096) present_writable
            else h.table j) =
      λ j. ap (λ t. t j) table ∙ map_loop-entries num_pages p physical_address h.table j below in
    (
      λ k small.
          let page = physical_address + k * 4096 in
          let inside_heap : not (
                leb kheap_begin_address (page_address (p + k))
                && ltb (page_address (p + k)) kheap_end_address)
              ≡ false =
            ground arith in
          let whole : not (page_boundary (page_address (p + k)) == page_address (p + k)) ≡ false =
            ground (arith, page_boundary_lem (page_address (p + k))) in
          let mapped : h'.table (p + k) ≡ edit_entry_attributes page present_writable =
            ground (arith, entry_at (p + k)) in
          rw
            (
              inside_heap,
              whole,
              entry-of-page (p + k) (omega arith),
              mapped,
              kheap_get_physical_address,
            )
            (address-of-entry page (omega arith) (omega arith)),
      λ j outside. ground (arith, entry_at j),
    )
