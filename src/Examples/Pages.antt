-- ===== src/Examples/Pages.antt =====
-- Concrete states for libc/memory.c, kernel/mm/bitmap_manipulation.c and
-- kernel/mm/physical_mm_manager.c.
use mike_os.Base.{
  ℕ, ◌+◌, ◌*◌, ◌^◌, ◌<◌, ◌≡◌, ◌≢◌, refl, false, ◌&&◌, ◌||◌, some, List, [], ◌∷◌, arith,
  if◌then◌else◌, success, leb, ltb,
}
use mike_os.Physical.{
  MmapEntry, PhysicalMem, align_len, allocate_physical_page, change_page_state, change_pages_state,
  entry_range, free_physical_page, map_entry, map_memory, page_available, page_unavailable,
  phy_memory_manager_init,
}
use mike_os.Physical.Boot.{listed, phy_memory_manager_init-pages}
use mike_os.Physical.Pages.{IsMarked, change_pages_state_range, page}
use mike_os.Physical.Allocation.{
  Allocates, allocate-distinct, allocate_physical_page-Allocates, free-allocate,
}
use mike_os.Bitmap.{address_to_bit_index, first_nonzero, next_page_boundary, page_boundary}
use mike_os.Memory.{IsBytes, Mem, get_msb_index, turn_bits_off, with_bit_off}
use mike_os.Memory.Ranges.{Untouched, bit_of, turn_bits_off_lem}

abbrev ones : Mem
ones _ = 255

abbrev all_free : PhysicalMem
all_free = record { bitmap = ones; no_page_available = false }

ones-IsBytes : IsBytes ones
ones-IsBytes a = omega arith

first_page : (allocate_physical_page 0x100000 all_free).1 ≡ 0x100000
unfolding allocate_physical_page first_nonzero get_msb_index
first_page = refl

second_page :
    (allocate_physical_page 0x100000 (allocate_physical_page 0x100000 all_free).0).1 ≡ 0x101000
unfolding allocate_physical_page first_nonzero change_page_state page_boundary get_msb_index
    address_to_bit_index with_bit_off
second_page = refl

allocate_physical_page-Allocates_example :
    Allocates 0x100000 all_free (allocate_physical_page 0x100000 all_free)
allocate_physical_page-Allocates_example =
    allocate_physical_page-Allocates 0x100000 {s = all_free} ones-IsBytes (omega arith) refl

allocate-distinct_example :
    (allocate_physical_page 0x100000 (allocate_physical_page 0x100000 all_free).0).1
    ≢ (allocate_physical_page 0x100000 all_free).1
allocate-distinct_example =
    allocate-distinct 0x100000 all_free ones-IsBytes (omega arith)
      (λ e. absurd (omega (arith, second_page)))

free-allocate_example :
    let r = allocate_physical_page 0x100000 all_free in
    let s' = (free_physical_page r.1 r.0).0 in
    ((k : ℕ) → page s' k ≡ page all_free k) × ((allocate_physical_page 0x100000 s').1 ≡ r.1)
free-allocate_example =
    free-allocate 0x100000 all_free ones-IsBytes (omega arith)
      (λ e. absurd (omega (arith, first_page)))

change_pages_state_range_example :
    IsMarked page_unavailable 256 512 all_free
      (change_pages_state (256 * 4096) (512 * 4096) page_unavailable all_free).0
    × ((change_pages_state (256 * 4096) (512 * 4096) page_unavailable all_free).1 ≡ success)
change_pages_state_range_example =
    change_pages_state_range 256 512 page_unavailable {s = all_free} ones-IsBytes (omega arith)
      (omega arith)

abbrev low_entry : MmapEntry
low_entry = record { addr = 0x9fc00; len = 0x2400; type = 1 }

abbrev high_entry : MmapEntry
high_entry = record { addr = 1 * 2 ^ 32 + 256 * 4096; len = 0x2000; type = 1 }

low_range : entry_range low_entry ≡ some (0xa0000, 0x2000)
unfolding entry_range page_boundary next_page_boundary
low_range = refl

-- Nothing is available before the memory map is read, which lists two pages and a reserved region.
abbrev none_free : PhysicalMem
none_free = record { bitmap = λ _. 0; no_page_available = false }

abbrev memory_map : List MmapEntry
memory_map =
    record { addr = 0x200000; len = 0x2000; type = 1 }
    ∷ record { addr = 0x300000; len = 0x8000; type = 2 }
    ∷ []

abbrev two_pages : PhysicalMem
two_pages = (change_pages_state 0x200000 0x202000 page_available none_free).0

two_pages-mapped : map_memory memory_map none_free ≡ some two_pages
unfolding map_memory map_entry entry_range align_len change_pages_state page_boundary
    change_page_state
two_pages-mapped = refl

phy_memory_manager_init-pages_example :
    (s' : PhysicalMem) × (phy_memory_manager_init (256 * 4096) (512 * 4096) memory_map none_free
      ≡ some s')
    × ((k : ℕ)
        → page s' k ≡ (
            if ltb k 255 || (leb 256 k && ltb k 512)
            then 0
            else (if listed memory_map k then 1 else page none_free k)))
phy_memory_manager_init-pages_example =
    phy_memory_manager_init-pages 256 512 memory_map none_free two_pages (omega arith) (omega arith)
      (λ a. omega arith) (omega arith, (omega arith, tt)) two_pages-mapped

turn_bits_off_lem_example :
    (bit_of (turn_bits_off 0 3 9 ones) 0 5
      ≡ (if leb 3 5 && ltb 5 (3 + 9) then 0 else bit_of ones 0 5))
    × (turn_bits_off 0 3 9 ones 1 < 256)
    × (Untouched 0 3 9 1 → turn_bits_off 0 3 9 ones 1 ≡ ones 1)
turn_bits_off_lem_example = turn_bits_off_lem 0 3 9 {m = ones} 5 1 ones-IsBytes
