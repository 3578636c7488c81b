-- ===== src/Bitmap.antt =====
-- The page macros of include/common.h and include/mm/bitmap_manipulation.h, and
-- kernel/mm/bitmap_manipulation.c. `unsigned long` has 32 bits (the build passes -m32).
pub mod Pages
pub mod FirstFree
use mike_os.Base.{
  ℕ, zero, suc, ◌+◌, ◌-◌, ◌*◌, ◌/◌, bit_and, u32, sub32, not32, if◌then◌else◌, ◌==◌, Option, none,
  some,
}
use mike_os.Memory.{Mem, get_msb_index}

abbrev pub page_size : ℕ
page_size = 4096

-- `PAGE_BOUNDARY` and `PAGE_ALIGN`.
unfoldable pub page_boundary : ℕ → ℕ
page_boundary val = bit_and val (not32 (page_size - 1))

unfoldable pub next_page_boundary : ℕ → ℕ
unfolding page_boundary
next_page_boundary val = u32 (page_boundary val + page_size)

unfoldable pub managed_memory_page_align : ℕ → ℕ → ℕ
unfolding page_boundary
managed_memory_page_align value addr = u32 (page_boundary value + sub32 addr (page_boundary addr))

unfoldable pub bit_index_to_byte_index : ℕ → ℕ
bit_index_to_byte_index bit_index = bit_index / 8

unfoldable pub address_to_bit_index : ℕ → ℕ → ℕ
unfolding managed_memory_page_align
address_to_bit_index addr start_address =
    sub32 (managed_memory_page_align addr start_address) start_address / page_size

-- The first byte other than 0 among the `left` bytes from index `i` on. It is the loop of
-- `set_next_free_page_index` and of `allocate_physical_page`.
unfoldable pub first_nonzero : ℕ → ℕ → Mem → Option ℕ
first_nonzero zero i bitmap = none
first_nonzero (suc left) i bitmap =
    let rest = first_nonzero left (i + 1) bitmap in if bitmap i == 0 then rest else some i

-- `NO_AVAILABLE_PAGE`, -1 in an `unsigned long`.
abbrev pub no_available_page : ℕ
no_available_page = 0xFFFFFFFF

-- The value that is stored through `current_free_page_index`.
unfoldable pub set_next_free_page_index : Mem → ℕ → ℕ
set_next_free_page_index bitmap bitmap_size = elim (first_nonzero bitmap_size 0 bitmap) [
  | none ↦ no_available_page
  | some i ↦ i * 8 + get_msb_index (bitmap i)
]
