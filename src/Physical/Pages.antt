-- ===== src/Physical/Pages.antt =====
-- The bit of each page under `change_page_state` and `change_pages_state`
-- (kernel/mm/physical_mm_manager.c).
use mike_os.Base.{
  ℕ, zero, suc, ◌+◌, ◌-◌, ◌*◌, ◌/◌, ◌%◌, ◌^◌, ◌≤◌, ◌<◌, ◌≡◌, refl, arith, ltb, leb, ◌==◌, ◌&&◌,
  if◌then◌else◌, success, invalid_argument, u32, Bool-cases, ◌≢◌, ◌⊎◌, inl, inr, subst,
}
use native.Mathlib.Nat.{zero-add}
use mike_os.Memory.{IsBytes, Mem, turn_bit_on, turn_bit_off}
use mike_os.Memory.Ranges.{
  bit_of, bit_of-turn_bit_on, bit_of-turn_bit_off, turn_bit_on-IsBytes, turn_bit_off-IsBytes,
}
use mike_os.Bitmap.Pages.{page_boundary_page, address_to_bit_index_page, page_boundary_lem}
use mike_os.Bitmap.{page_size, address_to_bit_index}
use mike_os.Physical.{
  PageState, page_unavailable, page_available, PhysicalMem, set_page, change_page_state, pages_loop,
  change_pages_state,
}

-- 1 if the page with index `n` is available.
abbrev pub page : PhysicalMem → ℕ → ℕ
page s n = bit_of s.bitmap 0 n

abbrev pub state_bit : PageState → ℕ
state_bit page_unavailable = 0
state_bit page_available = 1

-- The state that `set_page` leaves.
abbrev pub with_page : PageState → ℕ → PhysicalMem → PhysicalMem
with_page state n s = record s { bitmap = set_page state n s.bitmap }

pub change_page_state_page :
    (state : PageState) (n : ℕ) (s : PhysicalMem)
    → n < 2 ^ 20
    → change_page_state (n * 4096) state s ≡ (with_page state n s, success)
unfolding change_page_state
change_page_state_page state n s h =
    let index = address_to_bit_index_page 0 n (omega arith) in
    let index' : address_to_bit_index (n * 4096) 0 ≡ n = rw (zero-add) at index in
    rw (page_boundary_page n h, index') (ground arith)

pub set_page-IsBytes :
    (state : PageState) (n : ℕ) {bitmap : Mem} → IsBytes bitmap → IsBytes (set_page state n bitmap)
unfolding set_page
set_page-IsBytes page_unavailable n bytes = turn_bit_off-IsBytes bytes (n / 8) (n % 8) (omega arith)
set_page-IsBytes page_available n bytes = turn_bit_on-IsBytes bytes (n / 8) (n % 8) (omega arith)

pub bit_of-set_page :
    (state : PageState) (n : ℕ) {bitmap : Mem} (k : ℕ)
    → IsBytes bitmap
    → bit_of (set_page state n bitmap) 0 k ≡ (if n == k then state_bit state else bit_of bitmap 0 k)
unfolding set_page
bit_of-set_page page_unavailable n {bitmap} k bytes =
    subst
      (λ q. bit_of (turn_bit_off q (n % 8) bitmap) 0 k ≡ (if n == k then 0 else bit_of bitmap 0 k))
      (zero-add (n / 8)) (bit_of-turn_bit_off bytes 0 n k)
bit_of-set_page page_available n {bitmap} k bytes =
    subst
      (λ q. bit_of (turn_bit_on q (n % 8) bitmap) 0 k ≡ (if n == k then 1 else bit_of bitmap 0 k))
      (zero-add (n / 8)) (bit_of-turn_bit_on bytes 0 n k)

-- `s'` is `s` with the pages `b` up to `e` in the given state.
pub record IsMarked (state : PageState) (b e : ℕ) (s s' : PhysicalMem) : Type 0 where
  pub bytes : IsBytes s'.bitmap
  pub pages : (k : ℕ) → page s' k ≡ (if leb b k && ltb k e then state_bit state else page s k)
  pub flag : s'.no_page_available ≡ s.no_page_available

IsMarked-step :
    {state : PageState} {b e : ℕ} {s s' : PhysicalMem}
    → b < e
    → IsBytes s.bitmap
    → IsMarked state (b + 1) e (with_page state b s) s'
    → IsMarked state b e s s'
IsMarked-step {state} {b} {s} lt bytes rest = record {
  bytes = rest.bytes;
  pages = λ k. ground (arith, rest.pages k, bit_of-set_page state b {bitmap = s.bitmap} k bytes);
  flag = rest.flag;
}

pages_loop-IsMarked :
    (fuel b e : ℕ) (state : PageState) {s : PhysicalMem}
    → IsBytes s.bitmap
    → b ≤ e
    → e < 2 ^ 20
    → e < fuel + b
    → IsMarked state b e s (pages_loop fuel (b * 4096) (e * 4096) state s).0
      × ((pages_loop fuel (b * 4096) (e * 4096) state s).1 ≡ success)
unfolding pages_loop
pages_loop-IsMarked zero b e state bytes le small fuel = absurd (omega arith)
pages_loop-IsMarked (suc fuel) b e state {s} bytes le small enough =
    elim (Bool-cases (ltb (b * 4096) (e * 4096))) [
      | inl more ↦
          let lt : b < e = ground (arith, more) in
          let next : u32 (b * 4096 + 4096) ≡ (b + 1) * 4096 = omega arith in
          let rest =
            pages_loop-IsMarked fuel (b + 1) e state {s = with_page state b s}
              (set_page-IsBytes state b bytes) (omega arith) small (omega arith) in
          rw (more, change_page_state_page state b s (omega arith), next)
            (IsMarked-step lt bytes rest.0, rest.1)
      | inr done ↦
          rw done (record { bytes = bytes; pages = λ k. ground (arith, done); flag = refl }, refl)
    ]

module _ (b e : ℕ) (state : PageState) {s : PhysicalMem} where
  -- On a range of pages that begins and ends at page boundaries `change_pages_state` succeeds, gives
  -- the pages of the range the state, and changes no other page and not the flag.
  pub change_pages_state_range :
      IsBytes s.bitmap
      → b ≤ e
      → e < 2 ^ 20
      → IsMarked state b e s (change_pages_state (b * 4096) (e * 4096) state s).0
        × ((change_pages_state (b * 4096) (e * 4096) state s).1 ≡ success)
  unfolding change_pages_state
  change_pages_state_range bytes le small =
      let rounds = (e * 4096 - b * 4096) / page_size + 1 in
      let loop = pages_loop-IsMarked rounds b e state {s = s} bytes le small (omega arith) in
      ground (arith, page_boundary_page b, page_boundary_page e, loop)

-- A range with an end off a page boundary, or that ends before it begins, is refused and nothing
-- changes.
pub change_pages_state_refused :
    (begin end : ℕ) (state : PageState) (s : PhysicalMem)
    → begin < 2 ^ 32
    → end < 2 ^ 32
    → (begin % 4096 ≢ 0) ⊎ (end % 4096 ≢ 0) ⊎ (end < begin)
    → change_pages_state begin end state s ≡ (s, invalid_argument)
unfolding change_pages_state
change_pages_state_refused begin end state s hb he bad =
    ground (arith, page_boundary_lem begin, page_boundary_lem end)
