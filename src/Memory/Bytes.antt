-- ===== src/Memory/Bytes.antt =====
-- Operations on the bits of one byte (libc/memory.c), by evaluation over all bytes.
use mike_os.Base.{
  ℕ, ◌-◌, ◌/◌, ◌%◌, ◌^◌, ◌<◌, ◌≡◌, refl, Bool, true, ◌&&◌, ◌||◌, arith, ltb, leb, if◌then◌else◌,
  ◌==◌, ==_iff,
}
use mike_os.Base.{all_below, all_below_sound}
use mike_os.Memory.{extract_bit, get_msb_index, with_bit_on, with_bit_off}

-- Bit `i` of a byte, where 0 is the most significant.
abbrev pub bit_at : ℕ → ℕ → ℕ
bit_at b i = b / 2 ^ (7 - i) % 2

abbrev all_bytes_bits : (ℕ → ℕ → Bool) → Bool
all_bytes_bits p = all_below 256 (λ b. all_below 8 (p b))

all_bytes_bits_sound :
    (p : ℕ → ℕ → Bool) (b i : ℕ) → all_bytes_bits p ≡ true → b < 256 → i < 8 → p b i ≡ true
all_bytes_bits_sound p b i h hb hi =
    all_below_sound 8 (p b) i (all_below_sound 256 (λ x. all_below 8 (p x)) b h hb) hi

extract_table : all_bytes_bits (λ b i. extract_bit b i == bit_at b i) ≡ true
unfolding all_below extract_bit
extract_table = refl

-- `extract_bit` reads the bit counted from the most significant one, also of a negative `char`.
pub extract_bit-bit_at : (b i : ℕ) → b < 256 → i < 8 → extract_bit b i ≡ bit_at b i
extract_bit-bit_at b i hb hi =
    (==_iff _ _).0
      (all_bytes_bits_sound (λ x j. extract_bit x j == bit_at x j) b i extract_table hb hi)

on_table :
    all_bytes_bits (λ b i.
      ltb (with_bit_on b i) 256
      && all_below 8 (λ j. bit_at (with_bit_on b i) j == (if i == j then 1 else bit_at b j)))
    ≡ true
unfolding all_below with_bit_on
on_table = refl

off_table :
    all_bytes_bits (λ b i.
      ltb (with_bit_off b i) 256
      && all_below 8 (λ j. bit_at (with_bit_off b i) j == (if i == j then 0 else bit_at b j)))
    ≡ true
unfolding all_below with_bit_off
off_table = refl

on_row :
    (b i j : ℕ)
    → b < 256
    → i < 8
    → j < 8
    → (with_bit_on b i < 256) × (bit_at (with_bit_on b i) j ≡ (if i == j then 1 else bit_at b j))
on_row b i j hb hi hj = ground (
  arith,
  all_bytes_bits_sound
      (λ (x : ℕ) (k : ℕ).
        ltb (with_bit_on x k) 256
        && all_below 8 (λ l. bit_at (with_bit_on x k) l == (if k == l then 1 else bit_at x l)))
      b i on_table,
  all_below_sound 8 (λ (l : ℕ). bit_at (with_bit_on b i) l == (if i == l then 1 else bit_at b l)) j,
)

off_row :
    (b i j : ℕ)
    → b < 256
    → i < 8
    → j < 8
    → (with_bit_off b i < 256) × (bit_at (with_bit_off b i) j ≡ (if i == j then 0 else bit_at b j))
off_row b i j hb hi hj = ground (
  arith,
  all_bytes_bits_sound
      (λ (x : ℕ) (k : ℕ).
        ltb (with_bit_off x k) 256
        && all_below 8 (λ l. bit_at (with_bit_off x k) l == (if k == l then 0 else bit_at x l)))
      b i off_table,
  all_below_sound 8 (λ (l : ℕ). bit_at (with_bit_off b i) l == (if i == l then 0 else bit_at b l))
      j,
)

pub with_bit_on-lt : (b i : ℕ) → b < 256 → i < 8 → with_bit_on b i < 256
with_bit_on-lt b i hb hi = (on_row b i 0 hb hi (omega arith)).0

pub with_bit_off-lt : (b i : ℕ) → b < 256 → i < 8 → with_bit_off b i < 256
with_bit_off-lt b i hb hi = (off_row b i 0 hb hi (omega arith)).0

pub bit_at-with_bit_on :
    (b i j : ℕ)
    → b < 256
    → i < 8
    → j < 8
    → bit_at (with_bit_on b i) j ≡ (if i == j then 1 else bit_at b j)
bit_at-with_bit_on b i j hb hi hj = (on_row b i j hb hi hj).1

pub bit_at-with_bit_off :
    (b i j : ℕ)
    → b < 256
    → i < 8
    → j < 8
    → bit_at (with_bit_off b i) j ≡ (if i == j then 0 else bit_at b j)
bit_at-with_bit_off b i j hb hi hj = (off_row b i j hb hi hj).1

msb_table :
    all_below 256 (λ b.
      b == 0
      || (ltb (get_msb_index b) 8
          && (bit_at b (get_msb_index b) == 1)
          && all_below 8 (λ j. leb (get_msb_index b) j || (bit_at b j == 0))))
    ≡ true
unfolding all_below get_msb_index
msb_table = refl

-- `get_msb_index` of a byte other than 0 is its first set bit: the index is below 8, that bit is
-- set, and every bit before it is clear.
pub get_msb_index-first :
    (b : ℕ)
    → 0 < b
    → b < 256
    → (get_msb_index b < 8)
      × (bit_at b (get_msb_index b) ≡ 1)
      × ((j : ℕ) → j < get_msb_index b → bit_at b j ≡ 0)
get_msb_index-first b pos hb = (
  ground (arith, row),
  ground (arith, row),
  λ j lt.
      ground
        (arith, row, all_below_sound 8 (λ (k : ℕ). leb (get_msb_index b) k || (bit_at b k == 0)) j),
)
  where
    row :
        (b == 0
          || (ltb (get_msb_index b) 8
              && (bit_at b (get_msb_index b) == 1)
              && all_below 8 (λ j. leb (get_msb_index b) j || (bit_at b j == 0))))
        ≡ true
    row =
        all_below_sound 256
          (λ (x : ℕ).
            x == 0
            || (ltb (get_msb_index x) 8
                && (bit_at x (get_msb_index x) == 1)
                && all_below 8 (λ j. leb (get_msb_index x) j || (bit_at x j == 0))))
          b msb_table hb

pub bit_at-zero : (j : ℕ) → bit_at 0 j ≡ 0
bit_at-zero j = ground arith

ones_table : all_below 8 (λ j. bit_at 0xFF j == 1) ≡ true
unfolding all_below
ones_table = refl

pub bit_at-ones : (j : ℕ) → j < 8 → bit_at 0xFF j ≡ 1
bit_at-ones j h = (==_iff _ _).0 (all_below_sound 8 (λ (k : ℕ). bit_at 0xFF k == 1) j ones_table h)
