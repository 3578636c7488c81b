-- ===== src/Examples/Heaps.antt =====
-- Concrete states for kernel/mm/kheap.c and kernel/mm/kmalloc.c.
use mike_os.Base.{
  ◌≢◌, ℕ, ◌-◌, ◌≤◌, ◌≡◌, ◌↔◌, refl, ap, false, some, [], ◌∷◌, ◌++◌, arith, ◌==◌, all_below,
  all_below_sound, done,
}
use mike_os.Bitmap.FirstFree.{IsFirstFree}
use mike_os.Kheap.{
  Kheap, alloc_and_map_physical_pages, claim, get_free_continuous_blocks_address,
  kheap_get_physical_address, alloc_kheap_pages, and_then,
}
use mike_os.VirtualMemory.Directory.{
  IsDirectory, VirtualSpace, alloc_page_dir, alloc_page_dir-IsDirectory, new_entries, new_space,
}
use mike_os.Kheap.Pages.{available, page_address}
use mike_os.Kheap.Single.{single-page-claim, single-page-claimed}
use mike_os.Kmalloc.{Blocks, kfree, new_block_size, pages_for, units_for}
use mike_os.Kmalloc.Free.{IsFreeList, kfree-append}
use mike_os.Kmalloc.Sizes.{new_block_size-suffices}
use mike_os.Memory.Ranges.{bit_of}

-- Every page is taken but the pages with index 2 and 5 of each byte, or the last of each byte.
abbrev heap_with : ℕ → Kheap
heap_with byte = record {
  bitmap = λ _. byte;
  table = λ _. 0;
  physical = record { bitmap = λ _. 255; no_page_available = false };
}

heap_first : IsFirstFree (heap_with 0x24).bitmap 0 2
unfolding all_below
heap_first = record {
  from = omega arith;
  free = refl;
  before = λ k l u. ground (arith, all_below_sound 2 (λ j. bit_of (λ _. 0x24) 0 j == 0) k refl u);
}

single-page-claimed_example :
    (h' : Kheap) × (get_free_continuous_blocks_address 1 (heap_with 0x24)
      ≡ done (h', page_address 2))
    × (available h' 2 ≡ 0)
    × ((k : ℕ) → k ≢ 2 → available h' k ≡ available (heap_with 0x24) k)
    × (h'.table ≡ (heap_with 0x24).table)
    × (h'.physical ≡ (heap_with 0x24).physical)
single-page-claimed_example =
    single-page-claimed (heap_with 0x24) (λ a. omega arith) 2 heap_first (omega arith)
      (λ e. absurd (omega arith)) (omega arith)

-- A directory in the third page of the heap.
abbrev space_in : Kheap → ℕ → VirtualSpace
space_in h physical = record {
  page_directory = 0xC0802000;
  physical_pgd_address = physical;
  entries = new_entries 0x100000 0x102000 physical;
}

alloc_page_dir-IsDirectory_example :
    let h = alloc_and_map_physical_pages 0 0xC0802000 1 (claim 1 0 2 (heap_with 0x24)).0 in
    IsDirectory 0x100000 0x102000 (space_in h (kheap_get_physical_address 0xC0802000 h))
unfolding alloc_page_dir alloc_kheap_pages claim new_space
alloc_page_dir-IsDirectory_example =
    let h = alloc_and_map_physical_pages 0 0xC0802000 1 (claim 1 0 2 (heap_with 0x24)).0 in
    alloc_page_dir-IsDirectory 0 0x100000 0x102000 (heap_with 0x24) h
      (space_in h (kheap_get_physical_address 0xC0802000 h)) refl refl
      (ap
        (λ o.
          and_then
            (and_then o λ (h', address). (alloc_and_map_physical_pages 0 address 1 h', address))
            λ (h', page_directory). (h', new_space 0x100000 0x102000 page_directory h'))
        (single-page-claim (heap_with 0x24) (λ a. omega arith) 2 heap_first (omega arith)
          (λ e. absurd (omega arith))))

-- The free list of one block of 100 units.
abbrev one_block : Blocks
one_block = record { free_blocks = 0x1000; next_free_block = λ _. 0; block_size = λ _. 100 }

one_block-IsFreeList : IsFreeList one_block (0x1000 ∷ [])
one_block-IsFreeList = record {
  chain = (refl, λ e. absurd (omega arith), refl);
  distinct = (tt, tt);
}

kfree-append_example :
    (b' : Blocks) × (kfree 5 0x2008 one_block ≡ some b')
    × IsFreeList b' ((0x1000 ∷ []) ++ (0x2008 - 8) ∷ [])
    × (b'.block_size ≡ one_block.block_size)
kfree-append_example =
    kfree-append 5 0x2008 one_block (0x1000 ∷ []) (omega arith) (omega arith)
      (λ e. absurd (omega arith), tt) (omega arith) one_block-IsFreeList

new_block_size-suffices_example :
    (units_for 4089 ≤ new_block_size (pages_for (units_for 4089))) ↔ (4089 ≤ 4088)
new_block_size-suffices_example = new_block_size-suffices 4089 (omega arith)
