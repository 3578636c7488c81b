-- ===== src/Early.antt =====
-- kernel/mm/early_paging_manager.c: the page tables of the boot, written to memory as 32-bit words at
-- byte addresses. The addresses of the two arrays are the linker's; `enable_paging` is left out.
pub mod Entries
pub mod Walk
use mike_os.Base.{ℕ, zero, suc, ◌+◌, ◌-◌, ◌*◌, ◌%◌, ◌^◌, u32, bit_or, if◌then◌else◌, ◌==◌, write}

abbrev pub num_kernel_page_tables : ℕ
num_kernel_page_tables = 2

abbrev pub kernel_pgd_entry_index : ℕ
kernel_pgd_entry_index = 768

-- `*(uint32_t*)entry |= attributes`, unless the address is NULL.
unfoldable pub edit_entry_attributes : ℕ → ℕ → (ℕ → ℕ) → ℕ → ℕ
edit_entry_attributes entry attributes m =
    if entry == 0 then m else write m entry (bit_or (m entry) attributes)

-- The inner loop of `create_kernel_page_tables`, from entry j over the n entries left.
unfoldable pub entries_loop : ℕ → ℕ → ℕ → ℕ → (ℕ → ℕ) → (ℕ → ℕ) × ℕ
entries_loop current_pgt j zero current_page m = (m, current_page)
entries_loop current_pgt j (suc n) current_page m =
    let entry = current_pgt + 4 * j in
    let stored = write m entry current_page in
    entries_loop current_pgt (j + 1) n (u32 (current_page + 4096))
      (write stored entry (bit_or (stored entry) 0x3))

module _ (kernel_page_tables init_page_directory : ℕ) where
  -- The outer loop, from table i over the n tables left.
  unfoldable pub tables_loop : ℕ → ℕ → ℕ → (ℕ → ℕ) → ℕ → ℕ
  tables_loop i zero current_page m = m
  tables_loop i (suc n) current_page m =
      let r = entries_loop (kernel_page_tables + 4096 * i) 0 1024 current_page m in
      tables_loop (i + 1) n r.1 r.0

  unfoldable pub create_kernel_page_tables : (ℕ → ℕ) → ℕ → ℕ
  create_kernel_page_tables m = tables_loop 0 num_kernel_page_tables 0 m

  -- The loops of `map_lower_mem` and `map_kernel_memory`: table t to entry `first + t`.
  unfoldable pub directory_loop : ℕ → ℕ → ℕ → (ℕ → ℕ) → ℕ → ℕ
  unfolding edit_entry_attributes
  directory_loop first t zero m = m
  directory_loop first t (suc n) m =
      let entry = init_page_directory + 4 * (first + t) in
      directory_loop first (t + 1) n
        (edit_entry_attributes entry (bit_or 2 1) (write m entry (kernel_page_tables + 4096 * t)))

  unfoldable pub map_lower_mem : (ℕ → ℕ) → ℕ → ℕ
  unfolding directory_loop
  map_lower_mem m = directory_loop 0 0 num_kernel_page_tables m

  unfoldable pub map_kernel_memory : (ℕ → ℕ) → ℕ → ℕ
  unfolding directory_loop
  map_kernel_memory m = directory_loop kernel_pgd_entry_index 0 num_kernel_page_tables m

  unfoldable pub init_recursive_page_directory : (ℕ → ℕ) → ℕ → ℕ
  unfolding edit_entry_attributes
  init_recursive_page_directory m =
      let entry = init_page_directory + 4 * (1024 - 1) in
      edit_entry_attributes entry (bit_or 2 1) (write m entry init_page_directory)

  unfoldable pub paging_init : (ℕ → ℕ) → ℕ → ℕ
  unfolding init_recursive_page_directory map_kernel_memory map_lower_mem
  paging_init m =
      init_recursive_page_directory
        (map_kernel_memory (map_lower_mem (create_kernel_page_tables m)))
