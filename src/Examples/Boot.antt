-- ===== src/Examples/Boot.antt =====
-- The ramdisk of kernel/entry.c in a heap.
use mike_os.Base.{
  ℕ, ◌+◌, ◌-◌, ◌*◌, ◌<◌, ◌≡◌, refl, ap, false, some, arith, ErrorCode, success, all_below,
  all_below_sound, ◌==◌, done,
}
use mike_os.Entry.{RootFs, make_initrd_fs}
use mike_os.Entry.Ramdisk.{make_initrd_fs-maps}
use mike_os.Kheap.{
  Kheap, address_to_page_table_entry, and_then, claim, kheap_get_physical_address, map_loop,
  map_physical_address_to_kheap,
}
use mike_os.Kheap.Pages.{page_address}
use mike_os.Kheap.Single.{single-page-claim}
use mike_os.Memory.Ranges.{bit_of}
use mike_os.Physical.{register_physical_pages}
use mike_os.Bitmap.FirstFree.{IsFirstFree}

-- The pages with index 2 and 5 of each byte are available.
abbrev heap : Kheap
heap = record {
  bitmap = λ _. 0x24;
  table = λ _. 0;
  physical = record { bitmap = λ _. 255; no_page_available = false };
}

heap_first : IsFirstFree heap.bitmap 0 2
unfolding all_below
heap_first = record {
  from = omega arith;
  free = refl;
  before = λ k l u. ground (arith, all_below_sound 2 (λ j. bit_of (λ _. 0x24) 0 j == 0) k refl u);
}

abbrev accept : ℕ → ℕ → Kheap → Kheap × ErrorCode
accept mod_start mod_end h = (h, success)

abbrev claimed : Kheap
claimed = (claim 1 0 2 heap).0

abbrev with_ramdisk : Kheap
with_ramdisk = record claimed {
  physical = (register_physical_pages 0x200000 1 claimed.physical).0;
  table = map_loop 1 2 0x200000 claimed.table;
}

one_page-mapped :
    map_physical_address_to_kheap 0x200000 1 heap ≡ done (with_ramdisk, page_address 2)
unfolding map_physical_address_to_kheap claim address_to_page_table_entry
one_page-mapped =
    ap
      (λ r. and_then r λ (h, address). (
        record h {
          physical = (register_physical_pages 0x200000 1 h.physical).0;
          table = map_loop 1 (address_to_page_table_entry address) 0x200000 h.table;
        },
        address,
      ))
      (single-page-claim heap (λ a. omega arith) 2 heap_first (omega arith)
        (λ e. absurd (omega arith)))

make_initrd_fs-maps_example :
    (fs : RootFs) × (make_initrd_fs accept
        (record { mods_count = 1; mod_start = 0x200000; mod_end = 0x201800 })
        heap
      ≡ some (done (with_ramdisk, fs)))
    × (fs.partition_begin_offset ≡ page_address 2)
    × (fs.partition_end_offset ≡ page_address 2 + 1 * 4096)
    × (0x201800 - 0x200000 < 1 * 4096 + 4096)
    × ((k : ℕ)
        → k < 1
        → kheap_get_physical_address (fs.partition_begin_offset + k * 4096) with_ramdisk
          ≡ 0x200000 + k * 4096)
make_initrd_fs-maps_example =
    make_initrd_fs-maps accept 0x200000 0x201800 2 heap heap with_ramdisk refl (omega arith)
      (omega arith) refl (omega arith) one_page-mapped
