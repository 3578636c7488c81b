-- ===== src/VirtualMemory/Store.antt =====
-- `map_user_virtual_address_to_physical` (kernel/mm/virtual_mm_manager.c): its two stores, and the pages that
-- exist afterwards. The entries of every page that exists are the same in a later space:
use mike_os.Base.{ℕ, ◌+◌, ◌*◌, ◌/◌, ◌%◌, ◌^◌, ◌<◌, ◌≡◌, ◌≢◌, refl, sym, ap, ◌∙◌, true, false, arith}
use mike_os.VirtualMemory.{
  AddressSpace, cleared, new_table, page_exists, store_entry, table_index, user_page,
}
use mike_os.Kheap.{address_to_directory_entry, edit_entry_attributes}
use mike_os.Physical.{PhysicalMem}
use mike_os.VirtualMemory.Tables.{HasRoom, same_entry-alone}
use mike_os.VirtualMemory.Entries.{
  allocated-IsEntry, directory_entry-table, edit_entry_attributes-IsEntry, page_exists-entries,
  page_exists-true,
}

abbrev pub KeepsPages : AddressSpace → AddressSpace → Type 0
KeepsPages s s' =
    (a : ℕ)
    → page_exists a s ≡ true
    → (s'.directory (address_to_directory_entry a) ≡ s.directory (address_to_directory_entry a))
      × (s'.tables (table_index a) ≡ s.tables (table_index a))

pub KeepsPages-exists :
    (s s' : AddressSpace) (a : ℕ)
    → KeepsPages s s'
    → page_exists a s ≡ true
    → page_exists a s' ≡ true
KeepsPages-exists s s' a keeps exists =
    let (entry, entry') = page_exists-entries a s exists in
    let (same, same') = keeps a exists in
    page_exists-true a s' (λ e. entry (sym same ∙ e)) (λ e. entry' (sym same' ∙ e))

pub KeepsPages-trans :
    (s s' s'' : AddressSpace) → KeepsPages s s' → KeepsPages s' s'' → KeepsPages s s''
KeepsPages-trans s s' s'' keeps keeps' a exists =
    let (same, same') = keeps a exists in
    let (again, again') = keeps' a (KeepsPages-exists s s' a keeps exists) in
    (again ∙ same, again' ∙ same')

-- The page of the address exists, those that existed are kept, and no page table is in page 0.
abbrev pub Maps : ℕ → AddressSpace → AddressSpace → Type 0
Maps address s s' = HasRoom s' × (page_exists address s' ≡ true) × KeepsPages s s'

-- The space after the store in the page's entry.
abbrev pub stored : ℕ → ℕ → AddressSpace → AddressSpace
stored address page s = record s {
  tables =
      store_entry s.directory (table_index address) (edit_entry_attributes page user_page) s.tables;
}

module _ (kernel_end : ℕ) where
  pub new_table-KeepsPages :
      (pgd_index : ℕ) (s : AddressSpace)
      → s.directory pgd_index ≡ 0
      → HasRoom (new_table kernel_end pgd_index s)
      → KeepsPages s (new_table kernel_end pgd_index s)
  unfolding new_table cleared
  new_table-KeepsPages pgd_index s unused alone a exists =
      let (entry, _) = page_exists-entries a s exists in
      let apart : address_to_directory_entry a ≢ pgd_index =
        λ e. entry (ap s.directory e ∙ unused) in
      let place = directory_entry-table a in
      let single =
        same_entry-alone (new_table kernel_end pgd_index s).directory
          (pgd_index * 1024 + table_index a % 1024) (table_index a) alone.0 in
      (ground (arith, apart), ground (arith, apart, place, single))

  pub new_table-entry :
      (pgd_index : ℕ) (s : AddressSpace)
      → (new_table kernel_end pgd_index s).directory pgd_index ≢ 0
  unfolding new_table
  new_table-entry pgd_index s e =
      let entry = allocated-IsEntry kernel_end s.physical in ground (arith, entry, e)

  -- The store in the entry of an address whose page is absent.
  pub store-Maps :
      (address page : ℕ) (s : AddressSpace)
      → page % 4096 ≡ 0
      → page < 2 ^ 32
      → HasRoom s
      → s.directory (address_to_directory_entry address) ≢ 0
      → page_exists address s ≡ false
      → Maps address s (stored address page s)
  unfolding store_entry
  store-Maps address page s aligned small alone used absent =
      let entry = edit_entry_attributes-IsEntry page aligned small in
      let single = λ (k : ℕ). same_entry-alone s.directory (table_index address) k alone.0 in
      (
        alone,
        page_exists-true address _ used
            (λ e. ground (arith, entry, e, single (table_index address))),
        λ a exists.
            let (entry, entry') = page_exists-entries a s exists in
            let apart : table_index address ≢ table_index a = λ e.
              let same_table =
                sym (directory_entry-table address)
                ∙ ap (λ t. t / 1024) e
                ∙ directory_entry-table a in
              let present =
                page_exists-true address s
                  (λ zero_entry. entry (ap s.directory (sym same_table) ∙ zero_entry))
                  (λ zero_entry. entry' (ap s.tables (sym e) ∙ zero_entry)) in
              absurd cc in
            (refl, ground (arith, apart, single (table_index a))),
      )

  pub page_exists-physical :
      (a : ℕ) (s : AddressSpace) (physical : PhysicalMem)
      → page_exists a (record s { physical = physical }) ≡ page_exists a s
  unfolding page_exists
  page_exists-physical a s physical = refl

  pub page_exists-directory :
      (a pgd_index : ℕ) (s : AddressSpace)
      → s.directory pgd_index ≡ 0
      → address_to_directory_entry a ≡ pgd_index
      → HasRoom (new_table kernel_end pgd_index s)
      → page_exists a (new_table kernel_end pgd_index s) ≡ false
  unfolding new_table cleared page_exists
  page_exists-directory a pgd_index s unused same alone =
      let place = directory_entry-table a in
      let single =
        same_entry-alone (new_table kernel_end pgd_index s).directory
          (pgd_index * 1024 + table_index a % 1024) (table_index a) alone.0 in
      ground (arith, same, place, single)
