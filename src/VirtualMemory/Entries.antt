-- ===== src/VirtualMemory/Entries.antt =====
-- The entries that kernel/mm/virtual_mm_manager.c stores in the directory and the page tables.
-- The entry of an address is the one with its page's number.
use mike_os.Base.{
  ℕ, ◌+◌, ◌*◌, ◌/◌, ◌%◌, ◌^◌, ◌<◌, ◌≡◌, ◌≢◌, ap, ◌∙◌, true, arith, bit_or, bit_and_mask,
  bit_or_fields,
}
use mike_os.VirtualMemory.{AddressSpace, page_exists, table_index, user_page}
use mike_os.Kheap.{address_to_directory_entry, address_to_page_table_entry, edit_entry_attributes}
use mike_os.Physical.{PhysicalMem, allocate_physical_page}
use mike_os.Kheap.Pages.{allocate-page-aligned}

pub table_index-page : (address : ℕ) → table_index address ≡ address / 4096
unfolding address_to_directory_entry address_to_page_table_entry
table_index-page address = omega (arith, bit_and_mask 10 (address / 2 ^ 12))

pub directory_entry-table :
    (address : ℕ) → table_index address / 1024 ≡ address_to_directory_entry address
unfolding address_to_directory_entry
directory_entry-table address = omega (arith, table_index-page address)

-- An entry that the code made of a page.
abbrev pub IsEntry : ℕ → Type 0
IsEntry entry = (entry < 2 ^ 32) × (entry % 4096 ≡ 7)

pub edit_entry_attributes-page :
    (page : ℕ) → page % 4096 ≡ 0 → page < 2 ^ 32 → edit_entry_attributes page user_page ≡ page + 7
unfolding edit_entry_attributes
edit_entry_attributes-page page aligned small =
    let at : page ≡ page / 4096 * 4096 = omega arith in
    let flags = ap (λ (t : ℕ). bit_or t 7) at ∙ bit_or_fields 12 (page / 4096) 7 (omega arith) in
    omega (arith, flags)

pub edit_entry_attributes-IsEntry :
    (page : ℕ) → page % 4096 ≡ 0 → page < 2 ^ 32 → IsEntry (edit_entry_attributes page user_page)
edit_entry_attributes-IsEntry page aligned small =
    let entry = edit_entry_attributes-page page aligned small in
    (omega (arith, entry), omega (arith, entry))

-- The entry of a page that the allocator gave, or of the page 0 when it had none.
pub allocated-IsEntry :
    (kernel_end : ℕ) (s : PhysicalMem)
    → IsEntry (edit_entry_attributes (allocate_physical_page kernel_end s).1 user_page)
allocated-IsEntry kernel_end s =
    let page = allocate-page-aligned kernel_end s in edit_entry_attributes-IsEntry _ page.0 page.1

pub page_exists-true :
    (address : ℕ) (s : AddressSpace)
    → s.directory (address_to_directory_entry address) ≢ 0
    → s.tables (table_index address) ≢ 0
    → page_exists address s ≡ true
unfolding page_exists
page_exists-true address s entry entry' = ground (arith, entry, entry')

pub page_exists-entries :
    (address : ℕ) (s : AddressSpace)
    → page_exists address s ≡ true
    → (s.directory (address_to_directory_entry address) ≢ 0) × (s.tables (table_index address) ≢ 0)
unfolding page_exists
page_exists-entries address s exists =
    ((λ e. ground (arith, exists, e)), (λ e. ground (arith, exists, e)))
