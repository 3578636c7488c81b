-- ===== src/Printf.antt =====
-- libc/stdio.c: the padding of strings and the conversion of integers. The characters that
-- `printchar` emits are a list, in order, whether they go to a buffer or to the console. A number is its
-- 32-bit pattern; widths are not negative, as `print` parses them. The loop over the format is in
-- Printf/Format.
pub mod Digits
pub mod Format
pub mod Directives
pub mod Parse
pub mod Ends
use mike_os.Base.{
  ℕ, zero, suc, ◌+◌, ◌-◌, ◌/◌, ◌%◌, ◌^◌, ◌==◌, ◌&&◌, ltb, leb, not, bit_and, sub32, if◌then◌else◌,
  Bool, List, [], ◌∷◌, ◌++◌, length, Option, none, some,
}

abbrev pub pad_right : ℕ
pad_right = 1

abbrev pub pad_zero : ℕ
pad_zero = 2

-- One of the loops that emit `padchar` while `width > 0`.
unfoldable pub padding : ℕ → ℕ → List ℕ
padding padchar zero = []
padding padchar (suc width) = padchar ∷ padding padchar width

-- `pad & flag`, as a test.
abbrev pub has_flag : ℕ → ℕ → Bool
has_flag pad flag = not (bit_and pad flag == 0)

-- What is emitted, and the count `pc`.
unfoldable pub prints : List ℕ → ℕ → ℕ → List ℕ × ℕ
unfolding padding
prints string width pad =
    let left =
      if ltb 0 width
      then (if leb width (length string) then 0 else width - length string)
      else width in
    let padchar = if ltb 0 width then (if has_flag pad pad_zero then 48 else 32) else 32 in
    let before = if has_flag pad pad_right then 0 else left in
    let after = if has_flag pad pad_right then left else 0 in
    (padding padchar before ++ (string ++ padding padchar after), before + length string + after)

-- The character of the digit t: `t + letbase - '0' - 10 + '0'` from 10 up.
unfoldable pub digit : ℕ → ℕ → ℕ
digit letbase t = if leb 10 t then t + letbase - 10 else t + 48

-- `while (u)`: the digits are written from the end of the buffer down, before what is there.
unfoldable pub digits_loop : ℕ → ℕ → ℕ → ℕ → List ℕ → Option (List ℕ)
unfolding digit
digits_loop zero b letbase u s = none
digits_loop (suc fuel) b letbase u s =
    let rest = digits_loop fuel b letbase (u / b) (digit letbase (u % b) ∷ s) in
    if u == 0 then some s else rest

-- 33 rounds are enough for a 32-bit number in any base from 2.
abbrev pub digits_fuel : ℕ
digits_fuel = 33

-- What is emitted of the digits of a number that is not 0.
unfoldable pub print_digits : Bool → ℕ → ℕ → List ℕ → List ℕ × ℕ
unfolding prints
print_digits neg width pad s =
    if neg
    then (if not (width == 0) && has_flag pad pad_zero
        then (let r = prints s (width - 1) pad in (45 ∷ r.0, 1 + r.1))
        else prints (45 ∷ s) width pad)
    else prints s width pad

unfoldable pub printi : ℕ → ℕ → Bool → ℕ → ℕ → ℕ → Option (List ℕ × ℕ)
unfolding print_digits prints
printi i b sg width pad letbase =
    let neg = sg && (b == 10) && leb (2 ^ 31) i in
    if i == 0
    then some (prints (48 ∷ []) width pad)
    else elim (digits_loop digits_fuel b letbase (if neg then sub32 0 i else i) []) [
      | none ↦ none
      | some s ↦ some (print_digits neg width pad s)
    ]
