-- ===== src/VirtualMemory/Map.antt =====
-- `mmap` (kernel/mm/virtual_mm_manager.c): the pages of a range come to exist, and those there stay.
use mike_os.Base.{
  ◌≤◌, ◌⊎◌, ℕ, zero, suc, ◌+◌, ◌-◌, ◌*◌, ◌%◌, ◌^◌, ◌<◌, ◌≡◌, inl, inr, refl, subst, ◌∙◌, true,
  false, ◌||◌, not, some, arith, success, ==_iff, Bool-cases, leb, lt_or_le, ltb, ◌==◌, u32,
}
use mike_os.VirtualMemory.{
  AddressSpace, kernel_virtual_offset, map_page, map_user_virtual_address_to_physical, mmap,
  mmap_loop, new_table, page_exists,
}
use mike_os.Kheap.{address_to_directory_entry}
use mike_os.Physical.{allocate_physical_page}
use mike_os.Bitmap.{page_boundary}
use mike_os.Bitmap.Pages.{page_boundary_lem}
use mike_os.Kheap.Pages.{allocate-page-aligned}
use mike_os.Memory.{IsBytes}
use mike_os.Physical.Allocation.{allocate-IsBytes}
use mike_os.VirtualMemory.Tables.{
  HasRoom, IsExhausted, NoneAtNull, allocate-page, map_user-IsExhausted, map_page-IsBytes,
  map_page-IsExhausted, new_table-or,
}
use mike_os.VirtualMemory.Store.{
  KeepsPages, KeepsPages-exists, KeepsPages-trans, Maps, new_table-KeepsPages, new_table-entry,
  page_exists-directory, page_exists-physical, store-Maps, stored,
}

module _ (kernel_end : ℕ) (low : 2 ^ 15 ≤ kernel_end) (small : kernel_end < 2 ^ 32) where
  map_user-Maps :
      (address page : ℕ) (s : AddressSpace)
      → page % 4096 ≡ 0
      → page < 2 ^ 32
      → IsBytes s.physical.bitmap
      → HasRoom s
      → page_exists address s ≡ false
      → let s' = map_user_virtual_address_to_physical kernel_end address page s in
        IsExhausted kernel_end s' ⊎ Maps address s s'
  unfolding map_user_virtual_address_to_physical
  map_user-Maps address page s aligned word bytes alone absent =
      let pgd_index = address_to_directory_entry address in
      elim (Bool-cases (s.directory pgd_index == 0)) [
        | inl unused ↦
            let none = (==_iff _ _).0 unused in
            elim (new_table-or kernel_end low small pgd_index s bytes alone) [
              | inl exhausted ↦ inl (rw (unused, map_user_virtual_address_to_physical) exhausted)
              | inr alone' ↦
                  let s1 = new_table kernel_end pgd_index s in
                  let (after, exists, keeps) =
                    store-Maps kernel_end address page s1 aligned word alone'
                      (new_table-entry kernel_end pgd_index s)
                      (page_exists-directory kernel_end address pgd_index s none refl alone') in
                  inr (
                    rw (unused, map_user_virtual_address_to_physical)
                      (
                        after,
                        exists,
                        KeepsPages-trans s s1 (stored address page s1)
                            (new_table-KeepsPages kernel_end pgd_index s none alone') keeps,
                      ))
            ]
        | inr used ↦ inr (
            rw (used, map_user_virtual_address_to_physical)
              (store-Maps kernel_end address page s aligned word alone
                (λ e. ground (arith, used, e)) absent))
      ]

  -- One step of the loop of `mmap`.
  map_page-Maps :
      (i : ℕ) (s : AddressSpace)
      → IsBytes s.physical.bitmap
      → HasRoom s
      → IsExhausted kernel_end (map_page kernel_end i s) ⊎ Maps i s (map_page kernel_end i s)
  unfolding map_page
  map_page-Maps i s bytes alone = elim (Bool-cases (page_exists i s)) [
    | inl exists ↦ inr (rw (exists, map_page) (alone, exists, λ a exists'. (refl, refl)))
    | inr absent ↦
        let page = allocate-page-aligned kernel_end s.physical in
        let s1 = record s { physical = (allocate_physical_page kernel_end s.physical).0 } in
        let absent' = page_exists-physical kernel_end i s s1.physical ∙ absent in
        let number = (allocate_physical_page kernel_end s.physical).1 in
        elim (allocate-page kernel_end low small s.physical bytes alone.1) [
          | inl out ↦ inl (rw (absent, map_page) (map_user-IsExhausted kernel_end i number s1 out))
          | inr (_, clear) ↦
              elim (map_user-Maps i number s1 page.0 page.1
                (allocate-IsBytes kernel_end s.physical bytes small) (alone.0, clear) absent') [
                  | inl exhausted ↦ inl (rw (absent, map_page) exhausted)
                  | inr (alone', exists, keeps) ↦ inr (
                      rw (absent, map_page)
                        (
                          alone',
                          exists,
                          λ a exists'.
                              keeps a (page_exists-physical kernel_end a s s1.physical ∙ exists'),
                        ))
                ]
        ]
  ]

  -- What the loop leaves of a space, where page tables are not shared to begin with unless memory is
  -- exhausted already.
  mmap_loop-maps :
      (fuel left i end : ℕ) (s : AddressSpace)
      → i + left * 4096 ≡ end
      → end < 2 ^ 32
      → left < fuel
      → IsBytes s.physical.bitmap
      → IsExhausted kernel_end s ⊎ HasRoom s
      → (s' : AddressSpace) × (mmap_loop kernel_end fuel i end s ≡ some s')
        × (IsExhausted kernel_end s → IsExhausted kernel_end s')
        × (IsExhausted kernel_end s'
            ⊎ (((k : ℕ) → k < left → page_exists (i + k * 4096) s' ≡ true) × KeepsPages s s'))
  unfolding mmap_loop
  mmap_loop-maps zero left i end s range word enough bytes ready = absurd (omega arith)
  mmap_loop-maps (suc fuel) zero i end s range word enough bytes ready =
      let over : ltb i end ≡ false = ground arith in
      rw (over, mmap_loop)
        (s, refl, (λ e. e), inr ((λ k below. absurd (omega arith)), λ a exists. (refl, refl)))
  mmap_loop-maps (suc fuel) (suc left) i end s range word enough bytes ready =
      let more : ltb i end ≡ true = ground arith in
      let next : u32 (i + 4096) ≡ i + 4096 = omega arith in
      let t = map_page kernel_end i s in
      let step : IsExhausted kernel_end t ⊎ Maps i s t = elim ready [
        | inl exhausted ↦ inl (map_page-IsExhausted kernel_end i s exhausted)
        | inr alone ↦ map_page-Maps i s bytes alone
      ] in
      let ready' : IsExhausted kernel_end t ⊎ HasRoom t = elim step [
        | inl exhausted ↦ inl exhausted
        | inr maps ↦ inr maps.0
      ] in
      let (s', run, stays, ends) =
        mmap_loop-maps fuel left (i + 4096) end t (omega arith) word (omega arith)
          (map_page-IsBytes kernel_end low small i s bytes) ready' in
      rw (more, mmap_loop, next)
        (
          s',
          run,
          (λ e. stays (map_page-IsExhausted kernel_end i s e)),
          elim step [
            | inl exhausted ↦ inl (stays exhausted)
            | inr (_, here, keeps) ↦ elim ends [
              | inl exhausted ↦ inl exhausted
              | inr (pages, keeps') ↦ inr (
                (λ k below. elim (lt_or_le 0 k) [
                  | inl later ↦
                      let place : i + 4096 + (k - 1) * 4096 ≡ i + k * 4096 = omega arith in
                      subst (λ a. page_exists a s' ≡ true) place (pages (k - 1) (omega arith))
                  | inr first ↦
                      let place : i ≡ i + k * 4096 = omega arith in
                      subst (λ a. page_exists a s' ≡ true) place
                        (KeepsPages-exists t s' i keeps' here)
                ]),
                KeepsPages-trans s t s' keeps keeps',
              )
            ]
          ],
        )

  -- For an aligned range below the kernel's half, with fuel for its pages, in a space without a page table in
  -- page 0, while the physical allocator has not said that it is out of pages (and the kernel ends at 32 KB or
  -- later): `mmap` returns SUCCESS. Unless every page that the allocator hands out is then taken, each page
  -- of the range exists, and the entries of every page that existed before are unchanged.
  pub mmap-maps :
      (fuel address num_pages : ℕ) (s : AddressSpace)
      → address % 4096 ≡ 0
      → address + num_pages * 4096 < kernel_virtual_offset
      → num_pages < fuel
      → IsBytes s.physical.bitmap
      → NoneAtNull s
      → s.physical.no_page_available ≡ false
      → (s' : AddressSpace) × (mmap kernel_end fuel address num_pages s ≡ some (s', success))
        × (IsExhausted kernel_end s'
            ⊎ (((k : ℕ) → k < num_pages → page_exists (address + k * 4096) s' ≡ true)
                × KeepsPages s s'))
  unfolding mmap
  mmap-maps fuel address num_pages s aligned below enough bytes alone clear =
      let end : u32 (address + u32 (num_pages * 4096)) ≡ address + num_pages * 4096 = omega arith in
      let low_end : (leb kernel_virtual_offset address
            || leb kernel_virtual_offset (address + num_pages * 4096))
          ≡ false =
        ground arith in
      let whole : not (page_boundary address == address) ≡ false =
        ground (arith, page_boundary_lem address) in
      let (s', run, _, ends) =
        mmap_loop-maps fuel num_pages address (address + num_pages * 4096) s refl (omega arith)
          enough bytes (inr (alone, clear)) in
      rw (end, low_end, whole, mmap, run) (s', refl, ends)
