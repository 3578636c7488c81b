-- ===== src/Physical.antt =====
-- kernel/mm/physical_mm_manager.c: one bit for each 4 KB page of the 4 GB address space, 1 for an
-- available page. Logging is left out. `kernel_start` and `kernel_end` are the linker's symbols.
pub mod Pages
pub mod Allocation
pub mod Boot
use mike_os.Base.{
  ℕ, zero, suc, ◌+◌, ◌-◌, ◌*◌, ◌/◌, ◌%◌, Bool, true, false, not, ◌||◌, if◌then◌else◌, ◌==◌, ltb,
  leb, u32, sub32, ◌^◌, Option, none, some, List, [], ◌∷◌, ErrorCode, success, failure,
  invalid_argument, is_success,
}
use mike_os.Memory.{Mem, get_msb_index, turn_bit_on, turn_bit_off}
use mike_os.Bitmap.{
  page_size, page_boundary, next_page_boundary, address_to_bit_index, first_nonzero,
}

-- `page_state_t` of include/mm/paging.h.
pub data PageState : Type 0 where
  page_unavailable page_available : PageState

abbrev pub bitmap_size : ℕ
bitmap_size = 131072

pub record PhysicalMem : Type 0 where
  pub bitmap : Mem
  pub no_page_available : Bool

-- The bitmap after the page with bit `n` got the state.
unfoldable pub set_page : PageState → ℕ → Mem → Mem
unfolding turn_bit_on turn_bit_off
set_page page_unavailable n bitmap = turn_bit_off (n / 8) (n % 8) bitmap
set_page page_available n bitmap = turn_bit_on (n / 8) (n % 8) bitmap

unfoldable pub change_page_state : ℕ → PageState → PhysicalMem → PhysicalMem × ErrorCode
unfolding set_page
change_page_state page_address state s =
    if not (page_boundary page_address == page_address) then (s, invalid_argument) else (
      record s { bitmap = set_page state (address_to_bit_index page_address 0) s.bitmap },
      success,
    )

-- The `for` loop of `change_pages_state`, on fuel.
pages_loop : ℕ → ℕ → ℕ → PageState → PhysicalMem → PhysicalMem × ErrorCode
pages_loop zero address end state s = (s, failure)
pages_loop (suc fuel) address end state s =
    let (s', code) = change_page_state address state s in
    let rest = pages_loop fuel (u32 (address + page_size)) end state s' in
    if not (ltb address end) then (s, success) else if is_success code then rest else (s', failure)

-- The fuel is one round for each page and one for the last test.
unfoldable pub change_pages_state : ℕ → ℕ → PageState → PhysicalMem → PhysicalMem × ErrorCode
unfolding pages_loop
change_pages_state begin end state s =
    if not (page_boundary begin == begin) || not (page_boundary end == end)
    then (s, invalid_argument)
    else if ltb end begin
    then (s, invalid_argument)
    else pages_loop ((end - begin) / page_size + 1) begin end state s

-- An entry of the multiboot memory map, with the 64-bit fields that are read.
pub record MmapEntry : Type 0 where
  pub addr : ℕ
  pub len : ℕ
  pub type : ℕ

abbrev pub multiboot_memory_available : ℕ
multiboot_memory_available = 1

unfoldable pub align_len : ℕ → ℕ
align_len len =
    if page_boundary len == len
    then len
    else if ltb (page_boundary len) len
    then page_boundary len
    else sub32 (page_boundary len) page_size

-- The range `(address, len)` that an available entry adds; `none` is the `continue`. The bytes
-- before the first page boundary are subtracted in 64 bits and the result is cut to 32.
unfoldable pub entry_range : MmapEntry → Option (ℕ × ℕ)
unfolding align_len
entry_range e =
    let address = u32 e.addr in
    let len = u32 e.len in
    let address' = next_page_boundary address in
    let len' = u32 (len + 2 ^ 64 - (address' + 2 ^ 64 - e.addr) % 2 ^ 64) in
    if page_boundary address == address
    then some (address, align_len len)
    else if leb len page_size
    then none
    else some (address', align_len len')

-- One round of the loop of `map_memory`; `none` is a kernel panic, which does not return.
unfoldable pub map_entry : MmapEntry → PhysicalMem → Option PhysicalMem
map_entry e s =
    if not (e.type == multiboot_memory_available) then some s else elim (entry_range e) [
      | none ↦ some s
      | some (address, len) ↦
          let (s', code) = change_pages_state address (u32 (address + len)) page_available s in
          if is_success code then some s' else none
    ]

-- The entries are those that the walk over GRUB's table visits, in order.
unfoldable pub map_memory : List MmapEntry → PhysicalMem → Option PhysicalMem
unfolding map_entry
map_memory [] s = some s
map_memory (e ∷ es) s = elim (map_entry e s) [ none ↦ none | some s' ↦ map_memory es s' ]

module _ (kernel_start kernel_end : ℕ) where
  unfoldable pub phy_memory_manager_init : List MmapEntry → PhysicalMem → Option PhysicalMem
  phy_memory_manager_init entries s = elim (map_memory entries s) [
    | none ↦ none
    | some s1 ↦
        let s2 = (change_pages_state 0 0xff000 page_unavailable s1).0 in
        some (change_pages_state kernel_start kernel_end page_unavailable s2).0
  ]

-- The page at `page_index` is taken: the address that the caller gets, and the new state.
unfoldable pub take_page : ℕ → PhysicalMem → PhysicalMem × ℕ
take_page page_index s =
    let address = u32 (page_index * page_size) in
    ((change_page_state address page_unavailable s).0, address)

-- The loop that looks for an available page. It skips the bytes of the bitmap below the end of the
-- kernel. Address 0 is `NULL`.
unfoldable pub search_page : ℕ → PhysicalMem → PhysicalMem × ℕ
unfolding take_page
search_page kernel_end s =
    let start = kernel_end / page_size / 8 in
    elim (first_nonzero (bitmap_size - start) start s.bitmap) [
      | none ↦ (record s { no_page_available = true }, 0)
      | some i ↦ take_page (i * 8 + get_msb_index (s.bitmap i)) s
    ]

unfoldable pub allocate_physical_page : ℕ → PhysicalMem → PhysicalMem × ℕ
unfolding search_page
allocate_physical_page kernel_end s =
    if s.no_page_available then (s, 0) else search_page kernel_end s

-- `error_code = change_page_state(...) == SUCCESS` stores the truth value of the comparison.
unfoldable pub free_physical_page : ℕ → PhysicalMem → PhysicalMem × ErrorCode
free_physical_page page_address s =
    let (s', code) = change_page_state page_address page_available s in
    if is_success code then (record s' { no_page_available = false }, failure) else (s', success)

unfoldable pub register_physical_pages : ℕ → ℕ → PhysicalMem → PhysicalMem × ErrorCode
register_physical_pages start_address end_address =
    change_pages_state start_address end_address page_unavailable

unfoldable pub unregister_physical_pages : ℕ → ℕ → PhysicalMem → PhysicalMem × ErrorCode
unregister_physical_pages start_address end_address =
    change_pages_state start_address end_address page_available
