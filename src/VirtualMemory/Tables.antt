-- ===== src/VirtualMemory/Tables.antt =====
-- Where the page tables of kernel/mm/virtual_mm_manager.c stand: while the allocator has pages, each is a
-- page of its own and none is in page 0.
use mike_os.Base.{
  ◌*◌, sym, subst, ℕ, ◌/◌, ◌^◌, ◌≤◌, ◌<◌, ◌≡◌, ◌⊎◌, inl, inr, refl, true, false, arith, Bool-cases,
  ◌==◌,
}
use mike_os.VirtualMemory.{
  AddressSpace, at_null, map_page, map_user_virtual_address_to_physical, new_table, page_exists,
  same_entry,
}
use mike_os.Memory.{IsBytes}
use mike_os.Kheap.{address_to_directory_entry}
use mike_os.Kheap.Pages.{allocate-page-aligned}
use mike_os.Physical.{PhysicalMem, allocate_physical_page}
use mike_os.Physical.Pages.{page}
use mike_os.Physical.Allocation.{
  first_byte, Allocates, exhausted, takes, allocate-IsBytes, allocate_physical_page-Allocates,
}
use mike_os.VirtualMemory.Entries.{edit_entry_attributes-page}

-- No page table stands in page 0.
abbrev pub NoneAtNull : AddressSpace → Type 0
NoneAtNull s = (k : ℕ) → at_null s.directory k ≡ false

-- The allocator has no page left: it has said so, and every page that it hands out is taken.
abbrev pub IsOut : ℕ → PhysicalMem → Type 0
IsOut kernel_end p =
    (p.no_page_available ≡ true)
    × ((k : ℕ) → first_byte kernel_end * 8 ≤ k → k < 2 ^ 20 → page p k ≡ 0)

abbrev pub IsExhausted : ℕ → AddressSpace → Type 0
IsExhausted kernel_end s = IsOut kernel_end s.physical

abbrev pub HasRoom : AddressSpace → Type 0
HasRoom s = NoneAtNull s × (s.physical.no_page_available ≡ false)

pub same_entry-alone :
    (directory : ℕ → ℕ) (i k : ℕ)
    → ((j : ℕ) → at_null directory j ≡ false)
    → same_entry directory i k ≡ (i == k)
unfolding same_entry
same_entry-alone directory i k none = rw (none (i / 1024), same_entry) ground arith

pub new_table-NoneAtNull :
    (kernel_end pgd_index : ℕ) (s : AddressSpace)
    → NoneAtNull s
    → 4096 ≤ (allocate_physical_page kernel_end s.physical).1
    → NoneAtNull (new_table kernel_end pgd_index s)
unfolding new_table at_null
new_table-NoneAtNull kernel_end pgd_index s none got k =
    let page = allocate-page-aligned kernel_end s.physical in
    let entry =
      edit_entry_attributes-page (allocate_physical_page kernel_end s.physical).1 page.0 page.1 in
    ground (arith, none k, entry, got)

allocate-IsOut :
    (kernel_end : ℕ) (p : PhysicalMem)
    → IsOut kernel_end p
    → IsOut kernel_end (allocate_physical_page kernel_end p).0
allocate-IsOut kernel_end p out = subst (IsOut kernel_end) (sym same) out
  where
    same : (allocate_physical_page kernel_end p).0 ≡ p
    same = unfold allocate_physical_page in rw (out.0) refl

pub map_user-IsExhausted :
    (kernel_end address page : ℕ) (s : AddressSpace)
    → IsExhausted kernel_end s
    → IsExhausted kernel_end (map_user_virtual_address_to_physical kernel_end address page s)
unfolding map_user_virtual_address_to_physical new_table
map_user-IsExhausted kernel_end address page s out =
    elim (Bool-cases (s.directory (address_to_directory_entry address) == 0)) [
      | inl unused ↦
          rw (unused, map_user_virtual_address_to_physical)
            (allocate-IsOut kernel_end s.physical out)
      | inr used ↦ rw (used, map_user_virtual_address_to_physical) out
    ]

pub map_page-IsExhausted :
    (kernel_end i : ℕ) (s : AddressSpace)
    → IsExhausted kernel_end s
    → IsExhausted kernel_end (map_page kernel_end i s)
unfolding map_page
map_page-IsExhausted kernel_end i s out = elim (Bool-cases (page_exists i s)) [
  | inl exists ↦ rw (exists, map_page) out
  | inr absent ↦
      let s1 = record s { physical = (allocate_physical_page kernel_end s.physical).0 } in
      let page = (allocate_physical_page kernel_end s.physical).1 in
      rw (absent, map_page)
        (map_user-IsExhausted kernel_end i page s1 (allocate-IsOut kernel_end s.physical out))
]

module _ (kernel_end : ℕ) (low : 2 ^ 15 ≤ kernel_end) (small : kernel_end < 2 ^ 32) where
  Allocates-page :
      {p : PhysicalMem} {r : PhysicalMem × ℕ}
      → p.no_page_available ≡ false
      → Allocates kernel_end p r
      → IsOut kernel_end r.0 ⊎ ((4096 ≤ r.1) × (r.0.no_page_available ≡ false))
  Allocates-page clear (takes n first inside) = inr (omega (arith, first.from), clear)
  Allocates-page clear (exhausted none_left) = inl (refl, none_left)

  pub allocate-page :
      (p : PhysicalMem)
      → IsBytes p.bitmap
      → p.no_page_available ≡ false
      → let r = allocate_physical_page kernel_end p in
        IsOut kernel_end r.0 ⊎ ((4096 ≤ r.1) × (r.0.no_page_available ≡ false))
  allocate-page p bytes clear =
      Allocates-page clear (allocate_physical_page-Allocates kernel_end bytes small clear)

  pub new_table-or :
      (pgd_index : ℕ) (s : AddressSpace)
      → IsBytes s.physical.bitmap
      → HasRoom s
      → IsExhausted kernel_end (new_table kernel_end pgd_index s)
        ⊎ HasRoom (new_table kernel_end pgd_index s)
  unfolding new_table
  new_table-or pgd_index s bytes room = elim (allocate-page s.physical bytes room.1) [
    | inl out ↦ inl out
    | inr (got, clear) ↦ inr (new_table-NoneAtNull kernel_end pgd_index s room.0 got, clear)
  ]

  map_user-IsBytes :
      (address page : ℕ) (s : AddressSpace)
      → IsBytes s.physical.bitmap
      → IsBytes (map_user_virtual_address_to_physical kernel_end address page s).physical.bitmap
  unfolding map_user_virtual_address_to_physical new_table
  map_user-IsBytes address page s bytes =
      elim (Bool-cases (s.directory (address_to_directory_entry address) == 0)) [
        | inl unused ↦
            rw (unused, map_user_virtual_address_to_physical)
              (allocate-IsBytes kernel_end s.physical bytes small)
        | inr used ↦ rw (used, map_user_virtual_address_to_physical) bytes
      ]

  pub map_page-IsBytes :
      (i : ℕ) (s : AddressSpace)
      → IsBytes s.physical.bitmap
      → IsBytes (map_page kernel_end i s).physical.bitmap
  unfolding map_page
  map_page-IsBytes i s bytes = elim (Bool-cases (page_exists i s)) [
    | inl exists ↦ rw (exists, map_page) bytes
    | inr absent ↦
        let s1 = record s { physical = (allocate_physical_page kernel_end s.physical).0 } in
        let page = (allocate_physical_page kernel_end s.physical).1 in
        rw (absent, map_page)
          (map_user-IsBytes i page s1 (allocate-IsBytes kernel_end s.physical bytes small))
  ]
