-- ===== src/Kmalloc/Sizes.antt =====
-- The sizes that `kmalloc` and `increase_heap_size` compute (kernel/mm/kmalloc.c).
use mike_os.Base.{ℕ, ◌+◌, ◌*◌, ◌^◌, ◌≤◌, ◌<◌, ◌↔◌, arith}
use mike_os.Kmalloc.{units_for, pages_for, new_block_size}

-- The units of a request hold its bytes and less than one unit more.
pub units_for_bounds :
    (size : ℕ) → size + 8 ≤ 2 ^ 32 → (size ≤ units_for size * 8) × (units_for size * 8 < size + 8)
unfolding units_for
units_for_bounds size h = omega arith

-- The block that `increase_heap_size` adds for a request is large enough for it exactly when the
-- request has at most 4088 bytes: the units, of 8 bytes each, are divided by the page size.
pub new_block_size-suffices :
    (size : ℕ)
    → size + 8 ≤ 2 ^ 32
    → (units_for size ≤ new_block_size (pages_for (units_for size))) ↔ (size ≤ 4088)
unfolding units_for pages_for new_block_size
new_block_size-suffices size h = (λ p. omega arith, λ p. omega arith)
