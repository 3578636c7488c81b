-- ===== src/Bitmap/Pages.antt =====
-- What the page macros compute, as arithmetic.
use mike_os.Base.{ℕ, ◌+◌, ◌*◌, ◌/◌, ◌%◌, ◌^◌, ◌<◌, ◌≡◌, arith, bit_and_page, ◌∙◌}
use mike_os.Bitmap.{
  page_boundary, next_page_boundary, managed_memory_page_align, address_to_bit_index,
}

pub page_boundary_lem : (x : ℕ) → x < 2 ^ 32 → page_boundary x ≡ x / 4096 * 4096
unfolding page_boundary
page_boundary_lem x h = bit_and_page x h

pub page_boundary_page : (n : ℕ) → n < 2 ^ 20 → page_boundary (n * 4096) ≡ n * 4096
page_boundary_page n h = page_boundary_lem (n * 4096) (omega arith) ∙ omega arith

pub next_page_boundary_lem :
    (x : ℕ) → x < 2 ^ 32 → next_page_boundary x ≡ (x / 4096 * 4096 + 4096) % 2 ^ 32
unfolding next_page_boundary page_boundary
next_page_boundary_lem x h = omega (arith, bit_and_page x h)

-- The address of the `n`-th page from a page-aligned start has bit index `n`.
pub address_to_bit_index_page :
    (s n : ℕ) → s + n < 2 ^ 20 → address_to_bit_index ((s + n) * 4096) (s * 4096) ≡ n
unfolding address_to_bit_index managed_memory_page_align page_boundary
address_to_bit_index_page s n h =
    omega
      (arith, bit_and_page ((s + n) * 4096) (omega arith), bit_and_page (s * 4096) (omega arith))
