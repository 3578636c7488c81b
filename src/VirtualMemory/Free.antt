-- ===== src/VirtualMemory/Free.antt =====
-- Giving an address space back (kernel/mm/virtual_mm_manager.c) after `mmap` filled it.
-- Every entry of the user half that is in use is a page's with the attributes.
use mike_os.Base.{
  ℕ, zero, suc, ◌+◌, ◌*◌, ◌%◌, ◌^◌, ◌≤◌, ◌<◌, ◌≡◌, ◌≢◌, inl, inr, refl, sym, ap, subst, ◌∙◌, true,
  false, ◌||◌, not, none, some, arith, Option-cases, ErrorCode, success, invalid_argument,
  Bool-cases, leb, ltb, some-injective, ◌==◌, u32,
}
use mike_os.VirtualMemory.{
  AddressSpace, at_null, same_entry, store_entry, cleared, free_directory_entry,
  free_directory_loop, free_table_loop, free_user_pages, kernel_virtual_offset, map_page,
  map_user_virtual_address_to_physical, mmap, mmap_loop, new_table, page_exists,
}
use mike_os.Kheap.{address_to_directory_entry}
use mike_os.Bitmap.{page_boundary}
use mike_os.Kheap.Pages.{allocate-page-aligned, free_physical_page-inside}
use mike_os.VirtualMemory.Entries.{IsEntry, allocated-IsEntry, edit_entry_attributes-IsEntry}

pub record WellFormed (s : AddressSpace) : Type 0 where
  pub directory : (k : ℕ) → k < 768 → s.directory k ≢ 0 → IsEntry (s.directory k)
  pub tables : (k : ℕ) → k < 768 * 1024 → s.tables k ≢ 0 → IsEntry (s.tables k)

module _ (kernel_end : ℕ) where
  new_table-WellFormed :
      (pgd_index : ℕ) (s : AddressSpace)
      → WellFormed s
      → WellFormed (new_table kernel_end pgd_index s)
  unfolding new_table cleared same_entry at_null
  new_table-WellFormed pgd_index s ok = record {
    directory = λ k small used.
        let entry = allocated-IsEntry kernel_end s.physical in
        ground (arith, entry, ok.directory k small, used);
    tables = λ k small used. ground (arith, ok.tables k small, used);
  }

  map_user-WellFormed :
      (address page : ℕ) (s : AddressSpace)
      → page % 4096 ≡ 0
      → page < 2 ^ 32
      → WellFormed s
      → WellFormed (map_user_virtual_address_to_physical kernel_end address page s)
  unfolding map_user_virtual_address_to_physical store_entry
  map_user-WellFormed address page s aligned small ok =
      let entry = edit_entry_attributes-IsEntry page aligned small in
      let pgd_index = address_to_directory_entry address in
      elim (Bool-cases (s.directory pgd_index == 0)) [
        | inl unused ↦
            let ok' = new_table-WellFormed pgd_index s ok in
            rw (unused, map_user_virtual_address_to_physical)
              (record {
                directory = ok'.directory;
                tables = λ k inside used. ground (arith, entry, ok'.tables k inside, used);
              })
        | inr used ↦
            rw (used, map_user_virtual_address_to_physical)
              (record {
                directory = ok.directory;
                tables = λ k inside used'. ground (arith, entry, ok.tables k inside, used');
              })
      ]

  map_page-WellFormed :
      (i : ℕ) (s : AddressSpace) → WellFormed s → WellFormed (map_page kernel_end i s)
  unfolding map_page
  map_page-WellFormed i s ok = elim (Bool-cases (page_exists i s)) [
    | inl exists ↦ rw (exists, map_page) ok
    | inr absent ↦
        let page = allocate-page-aligned kernel_end s.physical in
        rw (absent, map_page)
          (map_user-WellFormed i _ _ page.0 page.1
            (record { directory = ok.directory; tables = ok.tables }))
  ]

  mmap_loop-more :
      (fuel i end : ℕ) (s : AddressSpace)
      → ltb i end ≡ true
      → mmap_loop kernel_end (suc fuel) i end s
        ≡ mmap_loop kernel_end fuel (u32 (i + 4096)) end (map_page kernel_end i s)
  unfolding mmap_loop
  mmap_loop-more fuel i end s more = rw (more, mmap_loop) refl

  mmap_loop-over :
      (fuel i end : ℕ) (s : AddressSpace)
      → ltb i end ≡ false
      → mmap_loop kernel_end (suc fuel) i end s ≡ some s
  unfolding mmap_loop
  mmap_loop-over fuel i end s over = rw (over, mmap_loop) refl

  mmap_loop-WellFormed :
      (fuel i end : ℕ) (s s' : AddressSpace)
      → WellFormed s
      → mmap_loop kernel_end fuel i end s ≡ some s'
      → WellFormed s'
  unfolding mmap_loop
  mmap_loop-WellFormed zero i end s s' ok run = absurd cc
  mmap_loop-WellFormed (suc fuel) i end s s' ok run = elim (Bool-cases (ltb i end)) [
    | inl more ↦
        mmap_loop-WellFormed fuel (u32 (i + 4096)) end (map_page kernel_end i s) s'
          (map_page-WellFormed i s ok) (sym (mmap_loop-more fuel i end s more) ∙ run)
    | inr over ↦ subst WellFormed (some-injective (sym (mmap_loop-over fuel i end s over) ∙ run)) ok
  ]

  -- Whatever the range and the code that it returns, `mmap` leaves a well-formed space well formed.
  pub mmap-WellFormed :
      (fuel address num_pages : ℕ) (s s' : AddressSpace) (code : ErrorCode)
      → WellFormed s
      → mmap kernel_end fuel address num_pages s ≡ some (s', code)
      → WellFormed s'
  unfolding mmap
  mmap-WellFormed fuel address num_pages s s' code ok run =
      let end = u32 (address + u32 (num_pages * 4096)) in
      let well : (t : AddressSpace) (c : ErrorCode)
          → WellFormed t
          → mmap kernel_end fuel address num_pages s ≡ some (t, c)
          → WellFormed s' =
        λ t c ok' returned.
          subst WellFormed (ap (λ r. r.0) (some-injective (sym returned ∙ run))) ok' in
      elim (Bool-cases (leb kernel_virtual_offset address || leb kernel_virtual_offset end)) [
        | inl high ↦
            let refused : mmap kernel_end fuel address num_pages s ≡ some (s, invalid_argument) =
              rw (high, mmap) refl in
            well s invalid_argument ok refused
        | inr low ↦ elim (Bool-cases (not (page_boundary address == address))) [
          | inl crooked ↦
              let refused : mmap kernel_end fuel address num_pages s ≡ some (s, invalid_argument) =
                rw (low, crooked, mmap) refl in
              well s invalid_argument ok refused
          | inr whole ↦ elim (Option-cases (mmap_loop kernel_end fuel address end s)) [
            | inl unfinished ↦
                let stuck : mmap kernel_end fuel address num_pages s ≡ none =
                  rw (low, whole, mmap, unfinished) refl in
                let clash : none ≡ some (s', code) = sym stuck ∙ run in absurd cc
            | inr (t, looped) ↦
                let returned : mmap kernel_end fuel address num_pages s ≡ some (t, success) =
                  rw (low, whole, mmap, looped) refl in
                well t success (mmap_loop-WellFormed fuel address end s t ok looped) returned
          ]
        ]
      ]

-- Nothing of a well-formed space is given back: the entries carry the attributes, and
-- `free_physical_page` refuses them.
free_table_loop-leaks :
    (i j left : ℕ) (s : AddressSpace)
    → WellFormed s
    → i < 768
    → j + left ≤ 1024
    → free_table_loop i j left s ≡ s
unfolding free_table_loop
free_table_loop-leaks i j zero s ok low inside = refl
free_table_loop-leaks i j (suc left) s ok low inside =
    elim (Bool-cases (s.tables (i * 1024 + j) == 0)) [
      | inl unused ↦
          rw (unused, free_table_loop) (free_table_loop-leaks i (j + 1) left s ok low (omega arith))
      | inr used ↦
          let entry = ok.tables (i * 1024 + j) (omega arith) (λ e. ground (arith, used, e)) in
          let refused =
            free_physical_page-inside (s.tables (i * 1024 + j)) s.physical entry.0
              (λ e. ground (arith, entry, e)) in
          rw (used, free_table_loop, refused)
            (free_table_loop-leaks i (j + 1) left s ok low (omega arith))
    ]

free_directory_entry-leaks :
    (i : ℕ) (s : AddressSpace) → WellFormed s → i < 768 → free_directory_entry i s ≡ s
unfolding free_directory_entry
free_directory_entry-leaks i s ok low = elim (Bool-cases (s.directory i == 0)) [
  | inl unused ↦ rw (unused, free_directory_entry) refl
  | inr used ↦
      let entry = ok.directory i low (λ e. ground (arith, used, e)) in
      let refused =
        free_physical_page-inside (s.directory i) s.physical entry.0
          (λ e. ground (arith, entry, e)) in
      let table = free_table_loop-leaks i 0 1024 s ok low (omega arith) in
      rw (used, free_directory_entry, table, refused) refl
]

free_directory_loop-leaks :
    (i left : ℕ) (s : AddressSpace)
    → WellFormed s
    → i + left ≤ 768
    → free_directory_loop i left s ≡ s
unfolding free_directory_loop
free_directory_loop-leaks i zero s ok inside = refl
free_directory_loop-leaks i (suc left) s ok inside =
    ap (free_directory_loop (i + 1) left) (free_directory_entry-leaks i s ok (omega arith))
    ∙ free_directory_loop-leaks (i + 1) left s ok (omega arith)

-- Freeing a well-formed space reports SUCCESS and gives no physical page back: neither a page of the user's
-- nor a page table.
pub free_user_pages-leaks :
    (s : AddressSpace) → WellFormed s → free_user_pages (some s) ≡ (some s, success)
unfolding free_user_pages
free_user_pages-leaks s ok =
    ap (λ t. (some t, success)) (free_directory_loop-leaks 0 767 s ok (omega arith))
