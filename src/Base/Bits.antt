-- ===== src/Base/Bits.antt =====
-- `&` and `|` at variables: one step on the lowest digit, masks, and disjoint fields.
use Prim.Native.Nat.{
  ℕ, zero, suc, ◌+◌, ◌-◌, ◌*◌, ◌/◌, ◌%◌, ◌^◌, ◌≤◌, ◌<◌, min, max, digits, bitwise, bit_and, bit_or,
  bit_and-bitwise, bit_or-bitwise,
}
use mathlib.Core.Path.{◌≡◌, refl, sym, ap, ◌∙◌}
use native.Mathlib.Nat.{le_refl, pow-suc, one-le-pow}
use native.Mathlib.Omega.{arith}

-- Rounds beyond the first operand's value change nothing: any number of rounds from there on gives
-- what the operation means. `k` bounds both.
rounds_enough :
    (z : ℕ → ℕ) (f : ℕ → ℕ → ℕ) (k rounds x y : ℕ)
    → rounds < k
    → x ≤ rounds
    → digits z f rounds x y ≡ bitwise z f x y
rounds_enough z f zero rounds x y small enough = absurd (omega arith)
rounds_enough z f (suc k) (suc rounds) (suc x) y small enough =
    let half = suc x / 2 in
    let here = rounds_enough z f k rounds half (y / 2) (omega arith) (omega arith) in
    let there = rounds_enough z f k x half (y / 2) (omega arith) (omega arith) in
    ap (λ (t : ℕ). t * 2 + f (suc x % 2) (y % 2)) (here ∙ sym there)
rounds_enough z f (suc k) (suc rounds) zero y small enough = refl
rounds_enough z f (suc k) zero (suc x) y small enough = absurd (omega arith)
rounds_enough z f (suc k) zero zero y small enough = refl

lowest_digit :
    (z : ℕ → ℕ) (f : ℕ → ℕ → ℕ) (x y : ℕ)
    → 0 < x
    → bitwise z f x y ≡ f (x % 2) (y % 2) + 2 * bitwise z f (x / 2) (y / 2)
lowest_digit z f zero y positive = absurd (omega arith)
lowest_digit z f (suc x) y positive =
    omega (arith, rounds_enough z f (suc x) x (suc x / 2) (y / 2) (le_refl _) (omega arith))

zero_first : (y : ℕ) → (bit_or 0 y ≡ y) × (bit_and 0 y ≡ 0)
zero_first y = (bit_or-bitwise 0 y, bit_and-bitwise 0 y)

-- One digit of `|` and of `&`.
or_digit : (x y : ℕ) → bit_or x y ≡ max (x % 2) (y % 2) + 2 * bit_or (x / 2) (y / 2)
or_digit (suc x) y = simp bit_or-bitwise (lowest_digit (λ d. d) max (suc x) y (omega arith))
or_digit zero y = omega (arith, (zero_first y).0, (zero_first (y / 2)).0)

and_digit : (x y : ℕ) → bit_and x y ≡ min (x % 2) (y % 2) + 2 * bit_and (x / 2) (y / 2)
and_digit (suc x) y = simp bit_and-bitwise (lowest_digit (λ d. 0) min (suc x) y (omega arith))
and_digit zero y = omega (arith, (zero_first y).1, (zero_first (y / 2)).1)

zero_second : (k x : ℕ) → x < k → (bit_or x 0 ≡ x) × (bit_and x 0 ≡ 0)
zero_second zero x small = absurd (omega arith)
zero_second (suc k) zero small = zero_first 0
zero_second (suc k) (suc x) small =
    let half = zero_second k (suc x / 2) (omega arith) in
    (omega (arith, half.0, or_digit (suc x) 0), omega (arith, half.1, and_digit (suc x) 0))

doubled : (k q : ℕ) → q * 2 ^ suc k ≡ q * 2 ^ k + q * 2 ^ k
doubled k q = ap (λ (t : ℕ). q * t) (pow-suc 2 k) ∙ omega arith

-- A high part shifted by `k` and a low part of `k` bits: `|` adds them.
pub bit_or_fields : (k high low : ℕ) → low < 2 ^ k → bit_or (high * 2 ^ k) low ≡ high * 2 ^ k + low
bit_or_fields (suc k) high low fits =
    let halves = bit_or_fields k high (low / 2) (omega (arith, pow-suc 2 k)) in
    let digit = or_digit (high * 2 ^ suc k) low in ground (arith, halves, digit, doubled k high)
bit_or_fields zero high low fits =
    let none_left : low ≡ 0 = omega arith in
    let whole : high * 1 ≡ high = omega arith in
    rw (none_left, whole) ((zero_second (suc high) high (le_refl _)).0 ∙ omega arith)

-- A mask over such a pair keeps what it covers of each part: here all of the low one.
low_part : (k high low : ℕ) → low < 2 ^ k → bit_and (high * 2 ^ k + low) (2 ^ k - 1) ≡ low
low_part zero high low fits =
    (zero_second (suc (high * 1 + low)) (high * 1 + low) (le_refl _)).1 ∙ omega arith
low_part (suc k) high low fits =
    let halves = low_part k high (low / 2) (omega (arith, pow-suc 2 k)) in
    let digit = and_digit (high * 2 ^ suc k + low) (2 ^ suc k - 1) in
    ground (arith, halves, digit, doubled k high, pow-suc 2 k)

-- A mask of `k` low bits is the remainder by `2 ^ k`.
pub bit_and_mask : (k a : ℕ) → bit_and a (2 ^ k - 1) ≡ a % 2 ^ k
bit_and_mask k a =
    let parts = low_part k (a / 2 ^ k) (a % 2 ^ k) in ground (arith, parts, one-le-pow k 2)

-- Here the mask covers bits of the high part alone.
pub bit_and_high :
    (k high low mask : ℕ)
    → low < 2 ^ k
    → bit_and (high * 2 ^ k + low) (mask * 2 ^ k) ≡ bit_and high mask * 2 ^ k
bit_and_high zero high low mask fits =
    let first : high * 1 + low ≡ high = omega arith in
    let second : mask * 1 ≡ mask = omega arith in rw (first, second) (omega arith)
bit_and_high (suc k) high low mask fits =
    let halves = bit_and_high k high (low / 2) mask (omega (arith, pow-suc 2 k)) in
    let digit = and_digit (high * 2 ^ suc k + low) (mask * 2 ^ suc k) in
    ground (
      arith,
      halves,
      digit,
      doubled k high,
      doubled k mask,
      doubled k (bit_and high mask),
      pow-suc 2 k,
    )

-- `x & 0xFFFFF000`, the mask of the page number in 32 bits.
pub bit_and_page : (x : ℕ) → x < 2 ^ 32 → bit_and x 0xFFFFF000 ≡ x / 4096 * 4096
bit_and_page x h =
    let split : x ≡ x / 4096 * 4096 + x % 4096 = omega arith in
    ap (λ (t : ℕ). bit_and t 0xFFFFF000) split
    ∙ bit_and_high 12 (x / 4096) (x % 4096) 0xFFFFF (omega arith)
    ∙ omega (arith, bit_and_mask 20 (x / 4096))
