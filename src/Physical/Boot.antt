-- ===== src/Physical/Boot.antt =====
-- The boot of the physical memory manager: `map_memory` and `phy_memory_manager_init`
-- (kernel/mm/physical_mm_manager.c).
use mike_os.Base.{
  subst, some-injective, some-injective, ◌≢◌, false, ap, ◌∙◌, refl, none, false, none, ℕ, ◌+◌, ◌-◌,
  ◌*◌, ◌/◌, ◌%◌, ◌^◌, ◌≤◌, ◌<◌, ◌≡◌, arith, Bool, ltb, leb, ◌==◌, ◌&&◌, ◌||◌, if◌then◌else◌, u32,
  Bool-cases, inl, inr, subst₂, Option-cases, some, sym, List, [], ◌∷◌,
}
use mike_os.Memory.{IsBytes}
use mike_os.Bitmap.{next_page_boundary}
use mike_os.Bitmap.Pages.{page_boundary_lem, next_page_boundary_lem}
use mike_os.Physical.{
  PageState, page_unavailable, page_available, PhysicalMem, change_pages_state, MmapEntry,
  align_len, entry_range, map_entry, map_memory, phy_memory_manager_init,
}
use mike_os.Physical.Pages.{page, change_pages_state_range, change_pages_state_refused}

align_len_lem : (len : ℕ) → len < 2 ^ 32 → align_len len ≡ len / 4096 * 4096
unfolding align_len
align_len_lem len h = ground (arith, page_boundary_lem len)

-- For an entry of the memory map that lies below 4 GB, the pages that `map_memory` makes available
-- begin and end at page boundaries and lie inside the entry.
pub entry_range-within :
    (e : MmapEntry) (address len : ℕ)
    → e.addr < 2 ^ 32
    → e.len < 2 ^ 32
    → e.addr + e.len ≤ 2 ^ 32
    → entry_range e ≡ some (address, len)
    → (address % 4096 ≡ 0)
      × (len % 4096 ≡ 0)
      × (e.addr ≤ address)
      × (address + len ≤ e.addr + e.len)
unfolding entry_range
entry_range-within e address len ha hl fits got = ground (
  arith,
  page_boundary_lem e.addr,
  next_page_boundary_lem e.addr,
  align_len_lem e.len,
  align_len_lem (e.len - (4096 - e.addr % 4096)),
)

-- The address of an entry is cut to 32 bits: an available entry that begins `k * 4 GB` above a page
-- boundary makes pages available from that boundary below 4 GB on.
entry_range-truncates :
    (e : MmapEntry) (k n : ℕ)
    → n < 2 ^ 20
    → e.len < 2 ^ 32
    → e.addr ≡ k * 2 ^ 32 + n * 4096
    → entry_range e ≡ some (n * 4096, e.len / 4096 * 4096)
unfolding entry_range
entry_range-truncates e k n small hl at =
    let low : e.addr % 2 ^ 32 ≡ n * 4096 = omega arith in
    ground (arith, low, page_boundary_lem (n * 4096), align_len_lem e.len)

change_pages_state-IsBytes :
    (begin end : ℕ) (state : PageState) (s : PhysicalMem)
    → begin < 2 ^ 32
    → end < 2 ^ 32
    → IsBytes s.bitmap
    → IsBytes (change_pages_state begin end state s).0.bitmap
change_pages_state-IsBytes begin end state s hb he bytes = elim (Bool-cases good) [
  | inl ok ↦
      let eb : begin ≡ begin / 4096 * 4096 = ground (arith, ok) in
      let ee : end ≡ end / 4096 * 4096 = ground (arith, ok) in
      let marked =
        change_pages_state_range (begin / 4096) (end / 4096) state {s = s} bytes
          (ground (arith, ok)) (omega arith) in
      subst₂ (λ b e. IsBytes (change_pages_state b e state s).0.bitmap) (sym eb) (sym ee)
        marked.0.bytes
  | inr bad ↦ rw (change_pages_state_refused begin end state s hb he (ground (arith, bad))) bytes
]
  where
    good : Bool
    good = begin % 4096 == 0 && (end % 4096 == 0) && leb begin end

entry_range-lt :
    (e : MmapEntry) (address len : ℕ) → entry_range e ≡ some (address, len) → address < 2 ^ 32
unfolding entry_range next_page_boundary
entry_range-lt e address len got = ground arith

map_entry-IsBytes :
    (e : MmapEntry) (s s' : PhysicalMem)
    → IsBytes s.bitmap
    → map_entry e s ≡ some s'
    → IsBytes s'.bitmap
unfolding map_entry
map_entry-IsBytes e s s' bytes got = elim (Option-cases (entry_range e)) [
  | inl skip ↦ λ a. ground (arith, skip, bytes a)
  | inr ((address, len), range) ↦
      let after = (change_pages_state address (u32 (address + len)) page_available s).0 in
      let changed : IsBytes after.bitmap =
        change_pages_state-IsBytes address (u32 (address + len)) page_available s
          (entry_range-lt e address len range) (omega arith) bytes in
      λ a. ground (arith, range, bytes a, changed a)
]

map_memory-IsBytes :
    (es : List MmapEntry) (s s' : PhysicalMem)
    → IsBytes s.bitmap
    → map_memory es s ≡ some s'
    → IsBytes s'.bitmap
unfolding map_memory
map_memory-IsBytes [] s s' bytes got = λ a. ground (arith, bytes a)
map_memory-IsBytes (e ∷ es) s s' bytes got = elim (Option-cases (map_entry e s)) [
  | inl panic ↦ absurd (ground (arith, panic))
  | inr (t, ok) ↦ map_memory-IsBytes es t s' (map_entry-IsBytes e s t bytes ok) (ground (arith, ok))
]

-- Page k lies wholly in a region that the entry lists as available.
abbrev pub lists : MmapEntry → ℕ → Bool
lists e k = e.type == 1 && leb e.addr (k * 4096) && leb (k * 4096 + 4096) (e.addr + e.len)

-- Some entry of the memory map lists page k.
unfoldable pub listed : List MmapEntry → ℕ → Bool
listed [] k = false
listed (e ∷ es) k = lists e k || listed es k

-- Every entry ends below 4 GB.
abbrev pub AllBelow4gb : List MmapEntry → Type 0
AllBelow4gb [] = Unit
AllBelow4gb (e ∷ es) = (e.addr + e.len < 2 ^ 32) × AllBelow4gb es

entry_range-pages :
    (e : MmapEntry) (address len : ℕ)
    → e.addr + e.len < 2 ^ 32
    → entry_range e ≡ some (address, len)
    → (address ≡ (e.addr + 4095) / 4096 * 4096) × (address + len ≡ (e.addr + e.len) / 4096 * 4096)
unfolding entry_range
entry_range-pages e address len below got = ground (
  arith,
  page_boundary_lem e.addr,
  next_page_boundary_lem e.addr,
  align_len_lem e.len,
  align_len_lem (e.len - (4096 - e.addr % 4096)),
)

entry_range-skipped :
    (e : MmapEntry)
    → e.addr + e.len < 2 ^ 32
    → entry_range e ≡ none
    → (e.addr % 4096 ≢ 0) × (e.len ≤ 4096)
unfolding entry_range
entry_range-skipped e below got = ground (arith, page_boundary_lem e.addr)

map_entry-pages :
    (e : MmapEntry) (s s' : PhysicalMem) (k : ℕ)
    → e.addr + e.len < 2 ^ 32
    → IsBytes s.bitmap
    → map_entry e s ≡ some s'
    → page s' k ≡ (if lists e k then 1 else page s k)
unfolding map_entry
map_entry-pages e s s' k below bytes got = elim (Bool-cases (e.type == 1)) [
  | inr other ↦
      let same : s ≡ s' = some-injective (rw (other, map_entry) at got) in
      subst (λ t. page t k ≡ (if lists e k then 1 else page s k)) same (rw other refl)
  | inl available ↦ elim (Option-cases (entry_range e)) [
    | inl skip ↦
        let same : s ≡ s' = some-injective (rw (available, skip, map_entry) at got) in
        let small = entry_range-skipped e below skip in
        let unlisted : lists e k ≡ false = ground (arith, small) in
        subst (λ t. page t k ≡ (if lists e k then 1 else page s k)) same (rw unlisted refl)
    | inr ((address, len), range) ↦
        let (begins, ends) = entry_range-pages e address len below range in
        let first = (e.addr + 4095) / 4096 in
        let last = (e.addr + e.len) / 4096 in
        let end : u32 (address + len) ≡ last * 4096 = omega (arith, ends) in
        let (marked, code) =
          change_pages_state_range first last page_available {s = s} bytes
            (omega (arith, begins, ends)) (omega arith) in
        let whole : change_pages_state address (u32 (address + len)) page_available s
            ≡ change_pages_state (first * 4096) (last * 4096) page_available s =
          ap (λ b. change_pages_state b (u32 (address + len)) page_available s) begins
          ∙ ap (λ t. change_pages_state (first * 4096) t page_available s) end in
        let after = (change_pages_state (first * 4096) (last * 4096) page_available s).0 in
        let same : after ≡ s' =
          some-injective (rw (available, range, map_entry, whole, code) at got) in
        subst (λ t. page t k ≡ (if lists e k then 1 else page s k)) same
          (ground (arith, marked.pages k, available))
  ]
]

map_memory-pages :
    (es : List MmapEntry) (s s' : PhysicalMem) (k : ℕ)
    → AllBelow4gb es
    → IsBytes s.bitmap
    → map_memory es s ≡ some s'
    → page s' k ≡ (if listed es k then 1 else page s k)
unfolding map_memory listed
map_memory-pages [] s s' k below bytes got = ap (λ t. page t k) (sym (some-injective got))
map_memory-pages (e ∷ es) s s' k below bytes got = elim (Option-cases (map_entry e s)) [
  | inl panic ↦ absurd (ground (arith, panic))
  | inr (t, ok) ↦ ground (
    arith,
    map_memory-pages es t s' k below.1 (map_entry-IsBytes e s t bytes ok)
        (rw (ok, map_memory) at got),
    map_entry-pages e s t k below.0 bytes ok,
  )
]

-- `phy_memory_manager_init`, where the kernel lies between two page boundaries, every entry of the memory
-- map ends below 4 GB and `map_memory` does not panic: pages 0 to 254 (the addresses below 0xff000) and
-- the pages of the kernel are unavailable; of the others a page is available if it lies wholly in a region that
-- the memory map lists as available, and keeps its state if it lies in none.
pub phy_memory_manager_init-pages :
    (kernel_first kernel_last : ℕ) (entries : List MmapEntry) (s mapped : PhysicalMem)
    → kernel_first ≤ kernel_last
    → kernel_last < 2 ^ 20
    → IsBytes s.bitmap
    → AllBelow4gb entries
    → map_memory entries s ≡ some mapped
    → (s' : PhysicalMem) × (phy_memory_manager_init
          (kernel_first * 4096)
          (kernel_last * 4096)
          entries
          s
        ≡ some s')
      × ((k : ℕ)
          → page s' k ≡ (
              if ltb k 255 || (leb kernel_first k && ltb k kernel_last)
              then 0
              else (if listed entries k then 1 else page s k)))
unfolding phy_memory_manager_init
phy_memory_manager_init-pages kernel_first kernel_last entries s mapped le small bytes below got =
    let low =
      change_pages_state_range 0 255 page_unavailable {s = mapped}
        (map_memory-IsBytes entries s mapped bytes got) (omega arith) (omega arith) in
    let low_state = (change_pages_state 0 0xff000 page_unavailable mapped).0 in
    let kernel =
      change_pages_state_range kernel_first kernel_last page_unavailable {s = low_state} low.0.bytes
        le small in
    (
      (change_pages_state (kernel_first * 4096) (kernel_last * 4096) page_unavailable low_state).0,
      rw (got, phy_memory_manager_init),
      λ k. ground (
        arith,
        low.0.pages k,
        kernel.0.pages k,
        map_memory-pages entries s mapped k below bytes got,
      ),
    )
