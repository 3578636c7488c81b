-- ===== src/Entry/Ramdisk.antt =====
-- Where the ramdisk stands in the heap after `make_initrd_fs` (kernel/entry.c).
use mike_os.Base.{
  ℕ, ◌+◌, ◌-◌, ◌*◌, ◌/◌, ◌%◌, ◌^◌, ◌≤◌, ◌<◌, ◌≡◌, refl, sym, ap, subst, ◌∙◌, false, Option, some,
  arith, ErrorCode, success, ◌==◌, sub32, u32, Outcome, done,
}
use mike_os.Entry.{RootFs, make_initrd_fs, map_ramdisk}
use mike_os.Kheap.{Kheap, kheap_get_physical_address, map_physical_address_to_kheap}
use mike_os.Kheap.Pages.{page_address}
use mike_os.Kheap.Mapping.{map_physical-translates}

-- For one module, which begins at a page boundary and holds a page or more below 4 GB, that
-- `register_ramdisk` accepts, and where the heap answers its page p with room for the module's whole pages behind
-- it: `make_initrd_fs` returns; the file system begins at p and ends behind the whole pages, which leaves
-- out less than a page of the module; and each of its pages has the physical address of the page of the
-- module with the same number.
pub make_initrd_fs-maps :
    (register_ramdisk : ℕ → ℕ → Kheap → Kheap × ErrorCode) (mod_start mod_end p : ℕ)
    (h h1 h' : Kheap)
    → mod_start % 4096 ≡ 0
    → mod_start + 4096 ≤ mod_end
    → mod_end < 2 ^ 32
    → register_ramdisk mod_start mod_end h ≡ (h1, success)
    → let num_pages = (mod_end - mod_start) / 4096 in
      p + num_pages ≤ 1024
      → map_physical_address_to_kheap mod_start num_pages h1 ≡ done (h', page_address p)
      → (fs : RootFs) × (make_initrd_fs register_ramdisk
            (record { mods_count = 1; mod_start = mod_start; mod_end = mod_end })
            h
          ≡ some (done (h', fs)))
        × (fs.partition_begin_offset ≡ page_address p)
        × (fs.partition_end_offset ≡ page_address p + num_pages * 4096)
        × (mod_end - mod_start < num_pages * 4096 + 4096)
        × ((k : ℕ)
            → k < num_pages
            → kheap_get_physical_address (fs.partition_begin_offset + k * 4096) h'
              ≡ mod_start + k * 4096)
unfolding make_initrd_fs map_ramdisk
make_initrd_fs-maps register_ramdisk mod_start mod_end p h h1 h' aligned page below accepted inside
      mapped =
    let num_pages = (mod_end - mod_start) / 4096 in
    let size : sub32 mod_end mod_start ≡ mod_end - mod_start = omega arith in
    let not_null : (page_address p == 0) ≡ false = ground arith in
    let last : u32 (page_address p + u32 (sub32 mod_end mod_start / 4096 * 4096))
        ≡ page_address p + num_pages * 4096 =
      omega arith in
    let mapped' : map_physical_address_to_kheap mod_start (sub32 mod_end mod_start / 4096) h1
        ≡ done (h', page_address p) =
      subst (λ n. map_physical_address_to_kheap mod_start (n / 4096) h1 ≡ done (h', page_address p))
        (sym size) mapped in
    let made : ℕ → ℕ → Option (Outcome (Kheap × RootFs)) = λ end size. some (
      done (
        h',
        record {
          partition_begin_offset = page_address p;
          partition_end_offset = end;
          fs_specific = size;
        },
      )) in
    let pages =
      (map_physical-translates mod_start num_pages p h1 h' aligned (omega arith) (omega arith)
        inside mapped).0 in
    (
      record {
        partition_begin_offset = page_address p;
        partition_end_offset = page_address p + num_pages * 4096;
        fs_specific = mod_end - mod_start;
      },
      rw (accepted, mapped', not_null, map_ramdisk)
          (ap (λ end. made end (sub32 mod_end mod_start)) last
            ∙ ap (made (page_address p + num_pages * 4096)) size),
      refl,
      refl,
      omega arith,
      λ k small.
          let place : page_address p + k * 4096 ≡ page_address (p + k) = omega arith in
          rw place (pages k small),
    )
