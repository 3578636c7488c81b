-- ===== src/Physical/Allocation.antt =====
-- `allocate_physical_page`, `free_physical_page` and `unregister_physical_pages`
-- (kernel/mm/physical_mm_manager.c).
use mike_os.Base.{
  ℕ, ◌+◌, ◌-◌, ◌*◌, ◌/◌, ◌%◌, ◌^◌, ◌≤◌, ◌<◌, ◌≡◌, refl, arith, true, false, failure, u32,
  Bool-cases, ◌≢◌, inl, inr, subst, subst₂, ◌↔◌, Option-cases, ap, ◌∙◌, sym,
}
use mike_os.Memory.{IsBytes, get_msb_index}
use mike_os.Memory.Ranges.{bit_of}
use mike_os.Bitmap.{first_nonzero}
use mike_os.Bitmap.Pages.{page_boundary_lem}
use mike_os.Bitmap.FirstFree.{IsFirstFree, first_nonzero-some, first_nonzero-none}
use mike_os.Physical.{
  page_unavailable, page_available, PhysicalMem, set_page, change_page_state,
  allocate_physical_page, take_page, search_page, free_physical_page, unregister_physical_pages,
  bitmap_size,
}
use mike_os.Physical.Pages.{
  page, with_page, change_page_state_page, set_page-IsBytes, bit_of-set_page,
  change_pages_state_range,
}

-- The first byte of the bitmap that the allocator looks at.
abbrev pub first_byte : ℕ → ℕ
first_byte kernel_end = kernel_end / 4096 / 8

-- What a call of the allocator does to the state `s`: it takes the first available page behind the
-- kernel's first byte, or there is none and it says so.
pub data Allocates (kernel_end : ℕ) (s : PhysicalMem) : PhysicalMem × ℕ → Type 0 where
  takes :
      (n : ℕ)
      → IsFirstFree s.bitmap (first_byte kernel_end) n
      → n < 2 ^ 20
      → Allocates kernel_end s (with_page page_unavailable n s, n * 4096)
  exhausted :
      ((k : ℕ) → first_byte kernel_end * 8 ≤ k → k < 2 ^ 20 → page s k ≡ 0)
      → Allocates kernel_end s (record s { no_page_available = true }, 0)

take_page-eq :
    (n : ℕ) (s : PhysicalMem)
    → n < 2 ^ 20
    → take_page n s ≡ (with_page page_unavailable n s, n * 4096)
unfolding take_page
take_page-eq n s h =
    let address : u32 (n * 4096) ≡ n * 4096 = omega arith in
    rw (address, change_page_state_page page_unavailable n s h)

search_page-Allocates :
    (kernel_end : ℕ) {s : PhysicalMem}
    → IsBytes s.bitmap
    → kernel_end < 2 ^ 32
    → Allocates kernel_end s (search_page kernel_end s)
unfolding search_page
search_page-Allocates kernel_end {s} bytes small =
    let start = kernel_end / 4096 / 8 in
    let left = bitmap_size - start in
    elim (Option-cases (first_nonzero left start s.bitmap)) [
      | inl e ↦
          rw (search_page, e)
            (exhausted λ k p q. first_nonzero-none bytes left start e k p (omega arith))
      | inr (i, e) ↦
          let found = first_nonzero-some bytes left start i e in
          let fits : i * 8 + get_msb_index (s.bitmap i) < 2 ^ 20 = omega (arith, found.1) in
          rw (search_page, e, take_page-eq (i * 8 + get_msb_index (s.bitmap i)) s fits)
            (takes (i * 8 + get_msb_index (s.bitmap i)) found.0 fits)
    ]

-- While the flag is clear, `allocate_physical_page` takes the first available page from the byte of
-- the kernel's end on, returns its address and marks that page alone; if every such page is taken it
-- returns NULL and sets the flag.
pub allocate_physical_page-Allocates :
    (kernel_end : ℕ) {s : PhysicalMem}
    → IsBytes s.bitmap
    → kernel_end < 2 ^ 32
    → s.no_page_available ≡ false
    → Allocates kernel_end s (allocate_physical_page kernel_end s)
allocate_physical_page-Allocates kernel_end {s} bytes small clear =
    subst (Allocates kernel_end s) (sym searches) (search_page-Allocates kernel_end bytes small)
  where
    searches : allocate_physical_page kernel_end s ≡ search_page kernel_end s
    searches = unfold allocate_physical_page in ground arith

-- What a successful call found.
abbrev Taken : ℕ → PhysicalMem → PhysicalMem × ℕ → Type 0
Taken kernel_end s r =
    (n : ℕ) × IsFirstFree s.bitmap (first_byte kernel_end) n
    × (n < 2 ^ 20)
    × (r ≡ (with_page page_unavailable n s, n * 4096))

Allocates-Taken :
    {kernel_end : ℕ} {s : PhysicalMem} {r : PhysicalMem × ℕ}
    → Allocates kernel_end s r
    → r.1 ≢ 0
    → Taken kernel_end s r
Allocates-Taken (takes n first small) ne = (n, first, small, refl)
Allocates-Taken (exhausted none_left) ne = absurd (ne refl)

module _ (kernel_end : ℕ) {s : PhysicalMem} (bytes : IsBytes s.bitmap) (small : kernel_end < 2 ^ 32)
    (got : (allocate_physical_page kernel_end s).1 ≢ 0) where
  flag_clear : s.no_page_available ≡ false
  unfolding allocate_physical_page
  flag_clear = ground arith

  allocate-Taken : Taken kernel_end s (allocate_physical_page kernel_end s)
  allocate-Taken =
      Allocates-Taken (allocate_physical_page-Allocates kernel_end bytes small flag_clear) got

pub allocate-IsBytes :
    (kernel_end : ℕ) (s : PhysicalMem)
    → IsBytes s.bitmap
    → kernel_end < 2 ^ 32
    → IsBytes (allocate_physical_page kernel_end s).0.bitmap
allocate-IsBytes kernel_end s bytes small = elim (Bool-cases s.no_page_available) [
  | inl set ↦ subst (λ r. IsBytes r.0.bitmap) (sym (stays set)) bytes
  | inr clear ↦ keeps (allocate_physical_page-Allocates kernel_end bytes small clear)
]
  where
    stays : s.no_page_available ≡ true → allocate_physical_page kernel_end s ≡ (s, 0)
    stays set = unfold allocate_physical_page in ground arith

    keeps : {r : PhysicalMem × ℕ} → Allocates kernel_end s r → IsBytes r.0.bitmap
    keeps (takes n first fits) = set_page-IsBytes page_unavailable n bytes
    keeps (exhausted none_left) = bytes

-- Two allocations in a row never hand out the same page.
pub allocate-distinct :
    (kernel_end : ℕ) (s : PhysicalMem)
    → IsBytes s.bitmap
    → kernel_end < 2 ^ 32
    → (allocate_physical_page kernel_end (allocate_physical_page kernel_end s).0).1 ≢ 0
    → (allocate_physical_page kernel_end (allocate_physical_page kernel_end s).0).1
      ≢ (allocate_physical_page kernel_end s).1
allocate-distinct kernel_end s bytes small got same =
    let s' = (allocate_physical_page kernel_end s).0 in
    let first = allocate-Taken kernel_end bytes small (subst (λ x. x ≢ 0) same got) in
    let bytes' = allocate-IsBytes kernel_end s bytes small in
    let second = allocate-Taken kernel_end {s = s'} bytes' small got in
    let here : first.0 ≡ second.0 = omega (arith, ap (λ r. r.1) first.3, ap (λ r. r.1) second.3) in
    let bitmap : s'.bitmap ≡ set_page page_unavailable first.0 s.bitmap =
      ap (λ r. r.0.bitmap) first.3 in
    let free : bit_of (set_page page_unavailable first.0 s.bitmap) 0 first.0 ≡ 1 =
      subst₂ (λ b n. bit_of b 0 n ≡ 1) bitmap (sym here) second.1.free in
    ground (arith, free, bit_of-set_page page_unavailable first.0 first.0 bytes)

-- The state after the page `n` was taken and freed.
abbrev Restored : ℕ → PhysicalMem → PhysicalMem
Restored n s = record (with_page page_available n (with_page page_unavailable n s)) {
  no_page_available = false;
}

module _ (n : ℕ) (s : PhysicalMem) (bytes : IsBytes s.bitmap) where
  Restored-page : page s n ≡ 1 → (k : ℕ) → page (Restored n s) k ≡ page s k
  Restored-page free k = ground (
    arith,
    bit_of-set_page page_unavailable n k bytes,
    bit_of-set_page page_available n k (set_page-IsBytes page_unavailable n bytes),
  )

  free-taken :
      n < 2 ^ 20 → (free_physical_page (n * 4096) (with_page page_unavailable n s)).0 ≡ Restored n s
  unfolding free_physical_page
  free-taken h = rw (change_page_state_page page_available n (with_page page_unavailable n s) h)

  module _ {kernel_end : ℕ} (first : IsFirstFree s.bitmap (first_byte kernel_end) n) where
    Allocates-again :
        {r : PhysicalMem × ℕ} → Allocates kernel_end (Restored n s) r → n < 2 ^ 20 → r.1 ≡ n * 4096
    Allocates-again (exhausted none_left) h =
        absurd (ground (arith, none_left n first.from h, Restored-page first.free n, first.free))
    Allocates-again (takes k other small) h = ground (
      arith,
      first.free,
      other.free,
      first.before k other.from,
      other.before n first.from,
      Restored-page first.free n,
      Restored-page first.free k,
    )

-- Freeing the page that an allocation returned gives every page its state back, and the allocator
-- returns that page again.
pub free-allocate :
    (kernel_end : ℕ) (s : PhysicalMem)
    → IsBytes s.bitmap
    → kernel_end < 2 ^ 32
    → (allocate_physical_page kernel_end s).1 ≢ 0
    → let r = allocate_physical_page kernel_end s in
      let s' = (free_physical_page r.1 r.0).0 in
      ((k : ℕ) → page s' k ≡ page s k) × ((allocate_physical_page kernel_end s').1 ≡ r.1)
free-allocate kernel_end s bytes small got =
    let first = allocate-Taken kernel_end bytes small got in
    let freed : (free_physical_page (allocate_physical_page kernel_end s).1
          (allocate_physical_page kernel_end s).0).0
        ≡ Restored first.0 s =
      ap (λ r. (free_physical_page r.1 r.0).0) first.3 ∙ free-taken first.0 s bytes first.2 in
    rw (freed, ap (λ r. r.1) first.3)
      (
        Restored-page first.0 s bytes first.1.free,
        Allocates-again first.0 s bytes first.1
            (allocate_physical_page-Allocates kernel_end
              (set_page-IsBytes page_available first.0
                (set_page-IsBytes page_unavailable first.0 bytes))
              small refl)
            first.2,
      )

-- `free_physical_page` reports the reverse of what it did: FAILURE (the value 1 of a true
-- comparison) when it freed a page, SUCCESS when it refused an address inside a page.
pub free_physical_page_code :
    (page_address : ℕ) (s : PhysicalMem)
    → page_address < 2 ^ 32
    → ((free_physical_page page_address s).1 ≡ failure) ↔ (page_address % 4096 ≡ 0)
unfolding free_physical_page change_page_state
free_physical_page_code page_address s h = ground (arith, page_boundary_lem page_address)

-- Once an allocation has failed, releasing a range of pages by `unregister_physical_pages` makes
-- them available in the bitmap and yet leaves the allocator returning NULL.
pub allocate-unregister :
    (kernel_end b e : ℕ) (s : PhysicalMem)
    → IsBytes s.bitmap
    → b ≤ e
    → e < 2 ^ 20
    → s.no_page_available ≡ true
    → let s' = (unregister_physical_pages (b * 4096) (e * 4096) s).0 in
      ((k : ℕ) → b ≤ k → k < e → page s' k ≡ 1) × ((allocate_physical_page kernel_end s').1 ≡ 0)
unfolding unregister_physical_pages
allocate-unregister kernel_end b e s bytes le small set =
    let marked = change_pages_state_range b e page_available {s = s} bytes le small in
    (
      λ k p q. ground (arith, marked.0.pages k),
      unfold allocate_physical_page in ground (arith, marked.0.flag),
    )
