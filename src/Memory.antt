-- ===== src/Memory.antt =====
-- libc/memory.c: copies and fills of memory, and operations on the bits of bytes. The whole memory
-- is one map from addresses to bytes, so that buffers may overlap. A `for` loop is a recursion on
-- the rounds left; `int i` counts up to `num` without overflow while `num` is below 2 ^ 31.
pub mod Bytes
pub mod Copy
pub mod Ranges
use mike_os.Base.{
  ℕ, zero, suc, ◌+◌, ◌-◌, ◌*◌, ◌/◌, ◌%◌, ◌^◌, ◌<◌, bit_and, bit_or, write, u8, sub32, sign_extend8,
  sar32, not32, ◌>>>◌, if◌then◌else◌, ◌==◌,
}

abbrev pub Mem : Type 0
Mem = ℕ → ℕ

-- Every cell holds a byte.
abbrev pub IsBytes : Mem → Type 0
IsBytes m = (a : ℕ) → m a < 256

module _ (dst src : ℕ) where
  memcpy_loop : ℕ → ℕ → Mem → Mem
  memcpy_loop zero i m = m
  memcpy_loop (suc left) i m = memcpy_loop left (i + 1) (write m (dst + i) (m (src + i)))

unfoldable pub memcpy : ℕ → ℕ → ℕ → Mem → Mem
unfolding memcpy_loop
memcpy dst src num m = memcpy_loop dst src num 0 m

module _ (value addr : ℕ) where
  memset_loop : ℕ → ℕ → Mem → Mem
  memset_loop zero i m = m
  memset_loop (suc left) i m = memset_loop left (i + 1) (write m (addr + i) value)

unfoldable pub memset : ℕ → ℕ → ℕ → Mem → Mem
unfolding memset_loop
memset value addr num m = memset_loop value addr num 0 m

-- Bit 0 is the most significant one. `sizeof(char) * 8 - bit_index - 1` is unsigned.
unfoldable pub extract_bit : ℕ → ℕ → ℕ
extract_bit value bit_index =
    u8 (bit_and (sar32 (sign_extend8 value) (sub32 (sub32 8 bit_index) 1)) 1)

-- `while(value) { index++; value >>= 1; }`. A byte is at most itself many halvings from 0, so the
-- value is also the fuel.
msb_loop : ℕ → ℕ → ℕ → ℕ
msb_loop zero value index = index
msb_loop (suc fuel) value index =
    let rest = msb_loop fuel (value >>> 1) (index + 1) in if value == 0 then index else rest

unfoldable pub get_msb_index : ℕ → ℕ
unfolding msb_loop
get_msb_index value = sub32 8 (msb_loop value value 0)

-- The byte that `turn_bit_on` and `turn_bit_off` store.
unfoldable pub with_bit_on : ℕ → ℕ → ℕ
with_bit_on value bit_index = u8 (bit_or (sign_extend8 value) (0x80 >>> bit_index))

unfoldable pub with_bit_off : ℕ → ℕ → ℕ
with_bit_off value bit_index = u8 (bit_and (sign_extend8 value) (not32 (0x80 >>> bit_index)))

unfoldable pub turn_bit_on : ℕ → ℕ → Mem → Mem
turn_bit_on ptr bit_index m = write m ptr (with_bit_on (m ptr) bit_index)

unfoldable pub turn_bit_off : ℕ → ℕ → Mem → Mem
turn_bit_off ptr bit_index m = write m ptr (with_bit_off (m ptr) bit_index)

module _ (buffer : ℕ) where
  bits_off_loop : ℕ → ℕ → Mem → Mem
  bits_off_loop zero i m = m
  bits_off_loop (suc left) i m =
      bits_off_loop left (i + 1) (turn_bit_off (buffer + i / 8) (i % 8) m)

  bits_on_loop : ℕ → ℕ → Mem → Mem
  bits_on_loop zero i m = m
  bits_on_loop (suc left) i m = bits_on_loop left (i + 1) (turn_bit_on (buffer + i / 8) (i % 8) m)

unfoldable pub turn_bits_off : ℕ → ℕ → ℕ → Mem → Mem
unfolding bits_off_loop turn_bit_off
turn_bits_off buffer bit_index num_bits m = bits_off_loop buffer num_bits bit_index m

unfoldable pub turn_bits_on : ℕ → ℕ → ℕ → Mem → Mem
unfolding bits_on_loop turn_bit_on
turn_bits_on buffer bit_index num_bits m = bits_on_loop buffer num_bits bit_index m
