-- ===== src/Memory/Ranges.antt =====
-- `turn_bits_off` and `turn_bits_on` (libc/memory.c) on a bitmap that begins at `buffer`.
use mike_os.Base.{
  ℕ, zero, suc, ◌+◌, ◌/◌, ◌%◌, ◌≤◌, ◌<◌, ◌≡◌, refl, ◌&&◌, arith, ltb, leb, ◌==◌, if◌then◌else◌, ◌⊎◌,
}
use mike_os.Memory.{
  Mem, IsBytes, turn_bit_on, turn_bit_off, turn_bits_on, turn_bits_off, bits_on_loop, bits_off_loop,
}
use mike_os.Memory.Bytes.{
  bit_at, with_bit_on-lt, with_bit_off-lt, bit_at-with_bit_on, bit_at-with_bit_off,
}

-- Bit `n` of the bitmap at `buffer`, the most significant bit of each byte first.
abbrev pub bit_of : Mem → ℕ → ℕ → ℕ
bit_of m buffer n = bit_at (m (buffer + n / 8)) (n % 8)

module _ {m : Mem} (bytes : IsBytes m) (p i : ℕ) (hi : i < 8) where
  pub turn_bit_on-IsBytes : IsBytes (turn_bit_on p i m)
  unfolding turn_bit_on
  turn_bit_on-IsBytes a = ground (arith, bytes a, bytes p, with_bit_on-lt (m p) i)

  pub turn_bit_off-IsBytes : IsBytes (turn_bit_off p i m)
  unfolding turn_bit_off
  turn_bit_off-IsBytes a = ground (arith, bytes a, bytes p, with_bit_off-lt (m p) i)

module _ {m : Mem} (bytes : IsBytes m) (buffer n k : ℕ) where
  -- Setting bit `n` changes bit `n` alone.
  pub bit_of-turn_bit_on :
      bit_of (turn_bit_on (buffer + n / 8) (n % 8) m) buffer k
      ≡ (if n == k then 1 else bit_of m buffer k)
  unfolding turn_bit_on
  bit_of-turn_bit_on =
      ground
        (arith, bytes (buffer + n / 8), bit_at-with_bit_on (m (buffer + n / 8)) (n % 8) (k % 8))

  -- Clearing bit `n` changes bit `n` alone.
  pub bit_of-turn_bit_off :
      bit_of (turn_bit_off (buffer + n / 8) (n % 8) m) buffer k
      ≡ (if n == k then 0 else bit_of m buffer k)
  unfolding turn_bit_off
  bit_of-turn_bit_off =
      ground
        (arith, bytes (buffer + n / 8), bit_at-with_bit_off (m (buffer + n / 8)) (n % 8) (k % 8))

-- The bytes that bits `i` up to `i + left` of the bitmap at `buffer` do not lie in.
abbrev pub Untouched : ℕ → ℕ → ℕ → ℕ → Type 0
Untouched buffer i left a = (a < buffer) ⊎ (buffer + (i + left + 7) / 8 ≤ a)

module _ (buffer : ℕ) where
  bits_off_loop-range :
      (left i : ℕ) {m : Mem} (k a : ℕ)
      → IsBytes m
      → (bit_of (bits_off_loop buffer left i m) buffer k
          ≡ (if leb i k && ltb k (i + left) then 0 else bit_of m buffer k))
        × (bits_off_loop buffer left i m a < 256)
        × (Untouched buffer i left a → bits_off_loop buffer left i m a ≡ m a)
  unfolding bits_off_loop turn_bit_off
  bits_off_loop-range zero i k a bytes = (ground arith, bytes a, λ _. refl)
  bits_off_loop-range (suc left) i {m} k a bytes =
      let m' = turn_bit_off (buffer + i / 8) (i % 8) m in
      let rest =
        bits_off_loop-range left (i + 1) {m = m'} k a
          (turn_bit_off-IsBytes bytes (buffer + i / 8) (i % 8) (omega arith)) in
      (
        ground (arith, rest.0, bit_of-turn_bit_off bytes buffer i k),
        rest.1,
        λ apart. ground (arith, rest.2),
      )

  bits_on_loop-range :
      (left i : ℕ) {m : Mem} (k a : ℕ)
      → IsBytes m
      → (bit_of (bits_on_loop buffer left i m) buffer k
          ≡ (if leb i k && ltb k (i + left) then 1 else bit_of m buffer k))
        × (bits_on_loop buffer left i m a < 256)
        × (Untouched buffer i left a → bits_on_loop buffer left i m a ≡ m a)
  unfolding bits_on_loop turn_bit_on
  bits_on_loop-range zero i k a bytes = (ground arith, bytes a, λ _. refl)
  bits_on_loop-range (suc left) i {m} k a bytes =
      let m' = turn_bit_on (buffer + i / 8) (i % 8) m in
      let rest =
        bits_on_loop-range left (i + 1) {m = m'} k a
          (turn_bit_on-IsBytes bytes (buffer + i / 8) (i % 8) (omega arith)) in
      (
        ground (arith, rest.0, bit_of-turn_bit_on bytes buffer i k),
        rest.1,
        λ apart. ground (arith, rest.2),
      )

-- `turn_bits_off` clears exactly the bits `i` up to `i + n` of the bitmap, keeps every cell a byte,
-- and writes to no byte outside those that hold the range.
pub turn_bits_off_lem :
    (buffer i n : ℕ) {m : Mem} (k a : ℕ)
    → IsBytes m
    → (bit_of (turn_bits_off buffer i n m) buffer k
        ≡ (if leb i k && ltb k (i + n) then 0 else bit_of m buffer k))
      × (turn_bits_off buffer i n m a < 256)
      × (Untouched buffer i n a → turn_bits_off buffer i n m a ≡ m a)
turn_bits_off_lem buffer i n {m} k a bytes =
    unfold turn_bits_off in bits_off_loop-range buffer n i {m = m} k a bytes

-- `turn_bits_on` sets exactly the bits `i` up to `i + n` of the bitmap, keeps every cell a byte,
-- and writes to no byte outside those that hold the range.
pub turn_bits_on_lem :
    (buffer i n : ℕ) {m : Mem} (k a : ℕ)
    → IsBytes m
    → (bit_of (turn_bits_on buffer i n m) buffer k
        ≡ (if leb i k && ltb k (i + n) then 1 else bit_of m buffer k))
      × (turn_bits_on buffer i n m a < 256)
      × (Untouched buffer i n a → turn_bits_on buffer i n m a ≡ m a)
turn_bits_on_lem buffer i n {m} k a bytes =
    unfold turn_bits_on in bits_on_loop-range buffer n i {m = m} k a bytes
