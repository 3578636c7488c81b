-- ===== src/Memory/Copy.antt =====
-- What `memcpy` and `memset` (libc/memory.c) leave in memory.
use mike_os.Base.{
  ℕ, zero, suc, ◌+◌, ◌-◌, ◌≤◌, ◌≡◌, ◌⊎◌, ◌&&◌, arith, ltb, leb, if◌then◌else◌, write,
}
use mike_os.Memory.{Mem, memcpy_loop, memcpy, memset_loop, memset}

module _ (dst src : ℕ) where
  memcpy_loop-range :
      (left i : ℕ) (m : Mem) (a : ℕ)
      → (dst ≤ src) ⊎ (src + i + left ≤ dst)
      → memcpy_loop dst src left i m a
        ≡ (if leb (dst + i) a && ltb a (dst + i + left) then m (src + (a - dst)) else m a)
  unfolding memcpy_loop
  memcpy_loop-range zero i m a safe = ground arith
  memcpy_loop-range (suc left) i m a safe =
      ground (arith, memcpy_loop-range left (i + 1) (write m (dst + i) (m (src + i))) a)

-- `memcpy` moves `num` bytes from `src` to `dst` and writes nowhere else, if the source does not
-- begin before the destination and run into it.
pub memcpy_lem :
    (dst src num : ℕ) (m : Mem)
    → (dst ≤ src) ⊎ (src + num ≤ dst)
    → (a : ℕ)
    → memcpy dst src num m a ≡ (if leb dst a && ltb a (dst + num) then m (src + (a - dst)) else m a)
unfolding memcpy
memcpy_lem dst src num m safe a = ground (arith, memcpy_loop-range dst src num 0 m a)

memset_loop-range :
    (value addr left i : ℕ) (m : Mem) (a : ℕ)
    → memset_loop value addr left i m a
      ≡ (if leb (addr + i) a && ltb a (addr + i + left) then value else m a)
unfolding memset_loop
memset_loop-range value addr zero i m a = ground arith
memset_loop-range value addr (suc left) i m a =
    ground (arith, memset_loop-range value addr left (i + 1) (write m (addr + i) value) a)

-- `memset` stores `value` in the `num` bytes from `addr` on and writes nowhere else.
pub memset_lem :
    (value addr num : ℕ) (m : Mem) (a : ℕ)
    → memset value addr num m a ≡ (if leb addr a && ltb a (addr + num) then value else m a)
unfolding memset
memset_lem value addr num m a = ground (arith, memset_loop-range value addr num 0 m a)
