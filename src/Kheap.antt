-- ===== src/Kheap.antt =====
-- kernel/mm/kheap.c: the pages of the kernel heap, a bitmap of them and their page table. Index 0 of
-- `bitmap` is `kheap_st.bitmap`, and `table` is the page table seen through the recursive mapping.
-- The TLB flush has no part in the state.
pub mod Search
pub mod Single
pub mod Pages
pub mod Mapping
use mike_os.Base.{
  ℕ, zero, suc, ◌+◌, ◌-◌, ◌*◌, ◌/◌, ◌%◌, ◌<◌, ◌&&◌, not, Option, none, some, bit_and, bit_or,
  if◌then◌else◌, write, ErrorCode, success, invalid_argument, error_value, leb, ltb, ◌==◌, sub32,
  u32, ◌<<<◌, ◌>>>◌, Outcome, done, undefined,
}
use mike_os.Physical.{
  PhysicalMem, allocate_physical_page, free_physical_page, register_physical_pages,
}
use mike_os.Bitmap.{address_to_bit_index, page_boundary, page_size}
use mike_os.Memory.{Mem, extract_bit, memset, turn_bits_off, turn_bits_on}

abbrev pub kheap_bitmap_size : ℕ
kheap_bitmap_size = 131072

-- KERNEL_VIRTUAL_OFFSET + 8 MB, and 4 MB behind it.
abbrev pub kheap_begin_address : ℕ
kheap_begin_address = 0xC0800000

abbrev pub kheap_end_address : ℕ
kheap_end_address = 0xC0C00000

-- `READ_WRITE | PRESENT`.
abbrev pub present_writable : ℕ
present_writable = 3

unfoldable pub address_to_page_table_entry : ℕ → ℕ
address_to_page_table_entry address = bit_and (address >>> 12) 0x03ff

unfoldable pub address_to_directory_entry : ℕ → ℕ
address_to_directory_entry address = address >>> 22

-- The word that `edit_entry_attributes` stores back.
unfoldable pub edit_entry_attributes : ℕ → ℕ → ℕ
edit_entry_attributes entry attributes = bit_or entry attributes

pub record Kheap : Type 0 where
  pub bitmap : Mem
  pub table : ℕ → ℕ
  pub physical : PhysicalMem

-- `none` is the refusal of an address outside the heap (the value 0). An address inside a page
-- yields the number of INVALID_ARGUMENT.
unfoldable pub kheap_get_physical_address : ℕ → Kheap → ℕ
unfolding address_to_page_table_entry
kheap_get_physical_address virtual_address h =
    if not (leb kheap_begin_address virtual_address && ltb virtual_address kheap_end_address)
    then 0
    else if not (page_boundary virtual_address == virtual_address)
    then error_value invalid_argument
    else h.table (address_to_page_table_entry virtual_address) >>> 8 <<< 8

-- The loop of `alloc_and_map_physical_pages` from entry `i` on.
module _ (kernel_end : ℕ) where
  unfoldable pub alloc_loop : ℕ → ℕ → Kheap → Kheap
  alloc_loop zero i h = h
  alloc_loop (suc left) i h =
      let (physical, page) = allocate_physical_page kernel_end h.physical in
      alloc_loop left (i + 1) (record {
        bitmap = h.bitmap;
        table = write h.table i (edit_entry_attributes page present_writable);
        physical = physical;
      })

  unfoldable pub alloc_and_map_physical_pages : ℕ → ℕ → Kheap → Kheap
  unfolding alloc_loop edit_entry_attributes address_to_page_table_entry
  alloc_and_map_physical_pages address num_pages h =
      alloc_loop num_pages (address_to_page_table_entry address) h

-- `lookup_table[i] = extract_bit(bitmap[i / 8], i % 8)` for each bit of `num_bytes` bytes.
lookup_loop : Mem → ℕ → ℕ → ℕ → Mem → Mem
lookup_loop bitmap base zero i table = table
lookup_loop bitmap base (suc left) i table =
    lookup_loop bitmap base left (i + 1)
      (write table i (extract_bit (bitmap (base + i / 8)) (i % 8)))

unfoldable pub parse_lookup_table : Mem → ℕ → ℕ → Mem → Mem
unfolding lookup_loop
parse_lookup_table bitmap base num_bytes table = lookup_loop bitmap base (num_bytes * 8) 0 table

-- The `for` loop of `find_continuous_blocks_index`; `none` is the index -1.
unfoldable pub find_loop : Mem → ℕ → ℕ → Option ℕ → ℕ → Outcome (Option ℕ)
find_loop buffer zero i index num_blocks = undefined
find_loop buffer (suc left) i index num_blocks =
    let available = buffer i == 1 in
    let rest =
      find_loop buffer left (i + 1)
        (if available then (elim index [ none ↦ some i | some first ↦ some first ]) else none)
        (if available then num_blocks - 1 else num_blocks) in
    if num_blocks == 0 then done index else rest

unfoldable pub find_continuous_blocks_index : Mem → ℕ → ℕ → Outcome (Option ℕ)
unfolding find_loop
find_continuous_blocks_index buffer buffer_size num_blocks =
    find_loop buffer buffer_size 0 none num_blocks

-- `none` is the NULL page directory, and in the result the refusal of it. `kheap_page_tables` is the
-- address of the page table.
unfoldable pub map_kheap_to_pgd : ℕ → Option (ℕ → ℕ) → Option (ℕ → ℕ)
map_kheap_to_pgd kheap_page_tables none = none
map_kheap_to_pgd kheap_page_tables (some page_directory) = some (
    write page_directory (address_to_directory_entry kheap_begin_address)
      (edit_entry_attributes kheap_page_tables present_writable))

-- The directory in CR3, which the recursive mapping shows at RECURSIVE_PGT_ADDRESS, gets the entry of the
-- heap; `memset` fills as many bytes as the page tables have, 4 KB.
unfoldable pub kheap_init : ℕ → (ℕ → ℕ) → Kheap → Option (ℕ → ℕ) × Kheap
unfolding map_kheap_to_pgd
kheap_init kheap_page_tables current_directory h = (
  map_kheap_to_pgd kheap_page_tables (some current_directory),
  record h { bitmap = memset 0xFF 0 4096 h.bitmap },
)

unfoldable pub bytes_for : ℕ → ℕ
bytes_for num_pages = if not (num_pages % 8 == 0) then u32 (num_pages / 8 + 1) else num_pages / 8

-- The blocks `index` up to `index + num_pages` behind byte `i` are taken: the heap and the address.
unfoldable pub claim : ℕ → ℕ → ℕ → Kheap → Kheap × ℕ
claim num_pages i index h = (
  record h { bitmap = turn_bits_off i index num_pages h.bitmap },
  u32 (kheap_begin_address + (i * 8 + index) * page_size),
)

-- What the search does with the answer of `find_continuous_blocks_index` for byte `i`.
abbrev pub after_find :
    ℕ → ℕ → Kheap → Outcome (Kheap × ℕ) → Outcome (Option ℕ) → Outcome (Kheap × ℕ)
after_find num_pages i h next undefined = undefined
after_find num_pages i h next (done none) = next
after_find num_pages i h next (done (some index)) = done (claim num_pages i index h)

-- The loop of `get_free_continuous_blocks_address` from byte `i` on; address 0 is NULL.
unfoldable pub search_loop : ℕ → ℕ → ℕ → ℕ → Kheap → Outcome (Kheap × ℕ)
search_loop num_pages num_bytes zero i h = done (h, 0)
search_loop num_pages num_bytes (suc left) i h =
    let next = search_loop num_pages num_bytes left (i + 1) h in
    let lookup_table = parse_lookup_table h.bitmap i num_bytes (λ _. 0) in
    if h.bitmap i == 0
    then next
    else after_find num_pages i h next
        (find_continuous_blocks_index lookup_table (num_bytes * 8) num_pages)

unfoldable pub get_free_continuous_blocks_address : ℕ → Kheap → Outcome (Kheap × ℕ)
unfolding bytes_for
get_free_continuous_blocks_address num_pages h =
    let num_bytes = bytes_for num_pages in
    search_loop num_pages num_bytes (sub32 (sub32 kheap_bitmap_size num_bytes) 1) 0 h

abbrev pub and_then : {A B : Type 0} → Outcome A → (A → B) → Outcome B
and_then undefined k = undefined
and_then (done a) k = done (k a)

unfoldable pub alloc_kheap_pages : ℕ → ℕ → Kheap → Outcome (Kheap × ℕ)
alloc_kheap_pages kernel_end num_pages h =
    and_then (get_free_continuous_blocks_address num_pages h)
      λ (h', address). (alloc_and_map_physical_pages kernel_end address num_pages h', address)

-- The loop of `map_physical_address_to_kheap` from entry `i` on.
unfoldable pub map_loop : ℕ → ℕ → ℕ → (ℕ → ℕ) → ℕ → ℕ
map_loop zero i physical_address table = table
map_loop (suc left) i physical_address table =
    map_loop left (i + 1) (u32 (physical_address + page_size))
      (write table i (edit_entry_attributes physical_address present_writable))

-- The second argument of `register_physical_pages` is the number of pages, as in the source.
unfoldable pub map_physical_address_to_kheap : ℕ → ℕ → Kheap → Outcome (Kheap × ℕ)
unfolding map_loop
map_physical_address_to_kheap physical_address num_pages h =
    and_then (get_free_continuous_blocks_address num_pages h) λ (h', address). (
      record h' {
        physical = (register_physical_pages physical_address num_pages h'.physical).0;
        table = map_loop num_pages (address_to_page_table_entry address) physical_address h'.table;
      },
      address,
    )

-- The loop of `free_kheap_pages` from entry `i` on.
unfoldable pub free_loop : ℕ → ℕ → Kheap → Kheap
free_loop zero i h = h
free_loop (suc left) i h = free_loop left (i + 1) (record h {
  physical = (free_physical_page (h.table i) h.physical).0;
  table = write h.table i 0;
})

unfoldable pub free_kheap_pages : ℕ → ℕ → Kheap → Kheap × ErrorCode
unfolding free_loop
free_kheap_pages address num_pages h =
    if not (leb kheap_begin_address address && ltb address kheap_end_address)
    then (h, invalid_argument)
    else if not (page_boundary address == address)
    then (h, invalid_argument)
    else let bit_index = address_to_bit_index address kheap_begin_address in
      let bitmap = turn_bits_on 0 bit_index num_pages h.bitmap in
      (
        free_loop num_pages (address_to_page_table_entry address) (record h { bitmap = bitmap }),
        success,
      )
