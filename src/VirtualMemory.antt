-- ===== src/VirtualMemory.antt =====
-- kernel/mm/virtual_mm_manager.c: the user part of the address space in CR3. The recursive entry of the
-- page directory makes two arrays of words of it, the entries of the directory and those of all page
-- tables one after another; both are kept by index. Each table is a page of its own, but those that were
-- made while no physical page was left all stand in page 0: a store in one of them is a store in all.
-- `tlb_flush` is left out.
pub mod Entries
pub mod Tables
pub mod Store
pub mod Map
pub mod Free
pub mod Directory
use mike_os.Base.{
  ℕ, zero, suc, ◌+◌, ◌*◌, ◌/◌, ◌%◌, Bool, true, false, ◌&&◌, ◌||◌, not, Option, none, some,
  if◌then◌else◌, write, ErrorCode, success, invalid_argument, leb, ltb, ◌==◌, u32,
}
use mike_os.Kheap.{address_to_directory_entry, address_to_page_table_entry, edit_entry_attributes}
use mike_os.Physical.{PhysicalMem, allocate_physical_page, free_physical_page}
use mike_os.Bitmap.{page_boundary}

pub record AddressSpace : Type 0 where
  pub directory : ℕ → ℕ
  pub tables : ℕ → ℕ
  pub physical : PhysicalMem

-- `READ_WRITE | PRESENT | USER`.
abbrev pub user_page : ℕ
user_page = 7

abbrev pub user_space_limit : ℕ
user_space_limit = 767

abbrev pub kernel_virtual_offset : ℕ
kernel_virtual_offset = 0xC0000000

-- The place of an address's entry among those of the page tables.
abbrev pub table_index : ℕ → ℕ
table_index address =
    address_to_directory_entry address * 1024 + address_to_page_table_entry address

unfoldable pub page_exists : ℕ → AddressSpace → Bool
unfolding address_to_directory_entry address_to_page_table_entry
page_exists virtual_address s =
    not (s.directory (address_to_directory_entry virtual_address) == 0)
    && not (s.tables (table_index virtual_address) == 0)

-- The page table of this directory entry is in physical page 0, the NULL of the allocator.
unfoldable pub at_null : (ℕ → ℕ) → ℕ → Bool
at_null directory pgd_index = not (directory pgd_index == 0) && directory pgd_index / 4096 == 0

-- The entries are the same word: one entry, or the same place of two tables in page 0.
unfoldable pub same_entry : (ℕ → ℕ) → ℕ → ℕ → Bool
unfolding at_null
same_entry directory i k =
    i == k || (at_null directory (i / 1024) && at_null directory (k / 1024) && i % 1024 == k % 1024)

-- The page tables after the `memset` of the one of `pgd_index`.
unfoldable pub cleared : (ℕ → ℕ) → ℕ → (ℕ → ℕ) → ℕ → ℕ
unfolding same_entry
cleared directory pgd_index tables k =
    if same_entry directory (pgd_index * 1024 + k % 1024) k then 0 else tables k

-- The page tables after a store in the entry `i`.
unfoldable pub store_entry : (ℕ → ℕ) → ℕ → ℕ → (ℕ → ℕ) → ℕ → ℕ
unfolding same_entry
store_entry directory i entry tables k = if same_entry directory i k then entry else tables k

module _ (kernel_end : ℕ) where
  -- A directory entry that is NULL gets a page table.
  unfoldable pub new_table : ℕ → AddressSpace → AddressSpace
  unfolding edit_entry_attributes cleared
  new_table pgd_index s =
      let (physical, page) = allocate_physical_page kernel_end s.physical in
      let directory = write s.directory pgd_index (edit_entry_attributes page user_page) in
      record {
        directory = directory;
        tables = cleared directory pgd_index s.tables;
        physical = physical;
      }

  unfoldable pub map_user_virtual_address_to_physical : ℕ → ℕ → AddressSpace → AddressSpace
  unfolding new_table store_entry edit_entry_attributes address_to_directory_entry
      address_to_page_table_entry
  map_user_virtual_address_to_physical virtual_address physical_address s =
      let pgd_index = address_to_directory_entry virtual_address in
      let s' = if s.directory pgd_index == 0 then new_table pgd_index s else s in
      record s' {
        tables =
            store_entry s'.directory (table_index virtual_address)
              (edit_entry_attributes physical_address user_page) s'.tables;
      }

  -- The loop's body: the argument of the call is evaluated before the call.
  unfoldable pub map_page : ℕ → AddressSpace → AddressSpace
  unfolding page_exists map_user_virtual_address_to_physical
  map_page i s =
      let (physical, page) = allocate_physical_page kernel_end s.physical in
      if page_exists i s
      then s
      else map_user_virtual_address_to_physical i page (record s { physical = physical })

  -- The loop of `mmap`, on fuel. The counter is an `int` that is compared as an unsigned number.
  unfoldable pub mmap_loop : ℕ → ℕ → ℕ → AddressSpace → Option AddressSpace
  unfolding map_page
  mmap_loop zero i end s = none
  mmap_loop (suc fuel) i end s = elim (ltb i end) [
    | true ↦ mmap_loop fuel (u32 (i + 4096)) end (map_page i s)
    | false ↦ some s
  ]

  unfoldable pub mmap : ℕ → ℕ → ℕ → AddressSpace → Option (AddressSpace × ErrorCode)
  unfolding mmap_loop
  mmap fuel virtual_address num_pages s =
      let end = u32 (virtual_address + u32 (num_pages * 4096)) in
      if leb kernel_virtual_offset virtual_address || leb kernel_virtual_offset end
      then some (s, invalid_argument)
      else if not (page_boundary virtual_address == virtual_address)
      then some (s, invalid_argument)
      else elim (mmap_loop fuel virtual_address end s) [
        | none ↦ none
        | some s' ↦ some (s', success)
      ]

-- It ends without a `return`.
unfoldable pub free_user_virtual_page : ℕ → AddressSpace → AddressSpace
unfolding address_to_directory_entry
free_user_virtual_page virtual_address s = record s {
  physical =
      (free_physical_page (s.directory (address_to_directory_entry virtual_address)) s.physical).0;
}

-- `free_virtual_address_space`: the loop over page table i from entry j over the entries left.
unfoldable pub free_table_loop : ℕ → ℕ → ℕ → AddressSpace → AddressSpace
free_table_loop i j zero s = s
free_table_loop i j (suc left) s =
    let entry = s.tables (i * 1024 + j) in
    free_table_loop i (j + 1) left
      (if entry == 0 then s else record s { physical = (free_physical_page entry s.physical).0 })

-- The body of the loop over the directory.
unfoldable pub free_directory_entry : ℕ → AddressSpace → AddressSpace
unfolding free_table_loop
free_directory_entry i s =
    let s' = free_table_loop i 0 1024 s in
    if s.directory i == 0
    then s
    else record s' { physical = (free_physical_page (s'.directory i) s'.physical).0 }

unfoldable pub free_directory_loop : ℕ → ℕ → AddressSpace → AddressSpace
unfolding free_directory_entry
free_directory_loop i zero s = s
free_directory_loop i (suc left) s = free_directory_loop (i + 1) left (free_directory_entry i s)

-- `free_virtual_address_space` up to the two calls that give back the directory's own page and the
-- structure; `none` is NULL.
unfoldable pub free_user_pages : Option AddressSpace → Option AddressSpace × ErrorCode
unfolding free_directory_loop
free_user_pages none = (none, invalid_argument)
free_user_pages (some s) = (some (free_directory_loop 0 user_space_limit s), success)
