-- ===== src/Kmalloc.antt =====
-- kernel/mm/kmalloc.c: the list of free blocks. A `block_header_t` has 8 bytes, the field
-- `next_free_block` and the field `block_size`, which counts units of 8 bytes behind the header.
-- A pointer to a pointer is a `Slot`. The page allocator of kernel/mm/kheap.c is a parameter: from
-- its state and a number of pages it gives a new state and an address, 0 for NULL.
pub mod Sizes
pub mod Free
pub mod Split
use mike_os.Base.{
  ℕ, zero, suc, ◌+◌, ◌-◌, ◌*◌, ◌/◌, ◌^◌, Option, none, some, if◌then◌else◌, write, ltb, ◌==◌, sub32,
  u32,
}
use mike_os.Base.Chain.{Slot, head, next_of}

pub record Blocks : Type 0 where
  pub free_blocks : ℕ
  pub next_free_block : ℕ → ℕ
  pub block_size : ℕ → ℕ

-- A slot is `&blocks_info.free_blocks`, or the address of a block's field `next_free_block`.
unfoldable pub get_slot : Slot → Blocks → ℕ
get_slot head b = b.free_blocks
get_slot (next_of p) b = b.next_free_block p

unfoldable pub set_slot : Slot → ℕ → Blocks → Blocks
set_slot head v b = record b { free_blocks = v }
set_slot (next_of p) v b = record b { next_free_block = write b.next_free_block p v }

-- The walk of `kfree` to the slot that holds NULL, on fuel.
unfoldable pub last_slot : ℕ → Slot → Blocks → Option Slot
unfolding get_slot
last_slot zero slot b = none
last_slot (suc fuel) slot b =
    let rest = last_slot fuel (next_of (get_slot slot b)) b in
    if get_slot slot b == 0 then some slot else rest

-- `none` means that the fuel ran out.
unfoldable pub kfree : ℕ → ℕ → Blocks → Option Blocks
kfree fuel address b = elim (last_slot fuel head b) [
  | none ↦ none
  | some slot ↦ some (set_slot (next_of (sub32 address 8)) 0 (set_slot slot (sub32 address 8) b))
]

-- The number of pages that `increase_heap_size` asks for, and the size that it stores in the block.
unfoldable pub pages_for : ℕ → ℕ
pages_for units = units / 4096 + 1

unfoldable pub new_block_size : ℕ → ℕ
new_block_size num_pages = sub32 (u32 (u32 (num_pages * 4096) + 8 - 1) / 8) 1

-- The units of `kmalloc`: the size rounded up, in unsigned arithmetic.
unfoldable pub units_for : ℕ → ℕ
units_for size = u32 (size + 8 - 1) / 8

-- The block of `slot` is large enough: it is cut, or taken whole. The result is the new list and the
-- address behind the header.
unfoldable pub take_block : Slot → ℕ → Blocks → Blocks × ℕ
unfolding get_slot set_slot
take_block slot units b =
    let current = get_slot slot b in
    let free_block = u32 (current + b.block_size current * 8 + 2 ^ 33 - units * 8 - 8) in
    let cut : Blocks = record b {
      block_size = write b.block_size free_block units;
      next_free_block = write b.next_free_block free_block 0;
    } in
    if ltb units (b.block_size current)
    then (
      record cut {
        block_size = write cut.block_size current (sub32 (cut.block_size current) units);
      },
      u32 (free_block + 8),
    )
    else (set_slot slot (b.next_free_block current) b, u32 (current + 8))

module _ {Pages : Type 0} (alloc_kheap_pages : ℕ → Pages → Pages × ℕ) where
  -- The flag is `true` for SUCCESS.
  pub data Increased : Type 0 where
    grown : Pages → Blocks → Increased
    no_pages : Pages → Increased
    no_fuel : Increased

  unfoldable pub increase_heap_size : ℕ → ℕ → Pages → Blocks → Increased
  increase_heap_size fuel units pages b =
      let num_pages = pages_for units in
      let (pages', block) = alloc_kheap_pages num_pages pages in
      let sized : Blocks = record b {
        block_size = write b.block_size block (new_block_size num_pages);
      } in
      if block == 0
      then no_pages pages'
      else elim (kfree fuel (u32 (block + 8)) sized) [ none ↦ no_fuel | some b' ↦ grown pages' b' ]

  -- What a call of `kmalloc` returns; the address 0 is NULL.
  pub record Allocated : Type 0 where
    pub pages : Pages
    pub blocks : Blocks
    pub address : ℕ

  -- One test of the loop, at a slot that holds a block.
  abbrev pub try_block : Slot → ℕ → Pages → Blocks → Option Allocated → Option Allocated
  try_block slot units pages b rest =
      let r = take_block slot units b in
      if ltb (b.block_size (get_slot slot b)) units
      then rest
      else some (record { pages = pages; blocks = r.0; address = r.1 })

  unfoldable pub kmalloc_loop : ℕ → Slot → ℕ → Pages → Blocks → Option Allocated
  kmalloc_loop zero slot units pages b = none
  kmalloc_loop (suc fuel) slot units pages b =
      let next =
        λ (p : Pages) (b' : Blocks). kmalloc_loop fuel (next_of (get_slot slot b')) units p b' in
      if get_slot slot b == 0
      then elim (increase_heap_size (suc fuel) units pages b) [
        | no_fuel ↦ none
        | no_pages p ↦ some (record { pages = p; blocks = b; address = 0 })
        | grown p b' ↦ try_block slot units p b' (next p b')
      ]
      else try_block slot units pages b (next pages b)

  unfoldable pub kmalloc : ℕ → ℕ → Pages → Blocks → Option Allocated
  kmalloc fuel size pages b = kmalloc_loop fuel head (units_for size) pages b
