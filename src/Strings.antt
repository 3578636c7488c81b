-- ===== src/Strings.antt =====
-- libc/string.c, on strings in memory that end in the byte 0. Every `while` loop takes fuel; `none`
-- means that the fuel ran out. Pointers are addresses; where NULL is a possible result it is an
-- `Option` inside. A `char` is signed.
pub mod Texts
pub mod Compare
pub mod Scan
pub mod Stuck
use mike_os.Base.{
  ℕ, zero, suc, ◌+◌, ◌-◌, ◌^◌, Bool, true, false, not, ◌&&◌, ◌||◌, if◌then◌else◌, ◌==◌, leb, ltb,
  u32, sub32, sign_extend8, Option, none, some, write,
}
use mike_os.Base.Int.{ℤ, pos, negsuc, sub_ℕ}
use mike_os.Memory.{Mem}

-- The address behind the byte 0 that was copied, which is what `strcpy` returns, and the memory.
unfoldable pub strcpy : ℕ → ℕ → ℕ → Mem → Option (ℕ × Mem)
strcpy zero dest source m = none
strcpy (suc fuel) dest source m =
    let rest = strcpy fuel (dest + 1) (source + 1) (write m dest (m source)) in
    if m source == 0 then some (dest + 1, write m dest (m source)) else rest

-- `num` is an `int` that is decremented after each byte other than 0; here it is not negative.
unfoldable pub strncpy : ℕ → ℕ → ℕ → ℕ → Mem → Option (ℕ × Mem)
strncpy zero dest source num m = none
strncpy (suc fuel) dest source num m =
    let rest = strncpy fuel (dest + 1) (source + 1) (num - 1) (write m dest (m source)) in
    if m source == 0
    then some (dest + 1, write m dest (m source))
    else if num == 0
    then some (dest + 1, write m dest (m source))
    else rest

-- The difference `*str1 - *str2` of two `char`s, after promotion to `int`.
abbrev pub char_diff : ℕ → ℕ → ℤ
char_diff a b =
    sub_ℕ ((if ltb a 128 then a else 0) + (if ltb b 128 then 0 else 256 - b))
      ((if ltb b 128 then b else 0) + (if ltb a 128 then 0 else 256 - a))

unfoldable pub strcmp : ℕ → Mem → ℕ → ℕ → Option ℤ
strcmp zero m str1 str2 = none
strcmp (suc fuel) m str1 str2 =
    let rest = strcmp fuel m (str1 + 1) (str2 + 1) in
    if m str1 == 0 || (m str2 == 0)
    then if not (m str2 == 0)
      then some (negsuc 0)
      else if not (m str1 == 0)
      then some (pos 1)
      else some (pos 0)
    else if m str1 == m str2
    then rest
    else some (char_diff (m str1) (m str2))

-- `strncmp` writes the byte 0 into both strings and compares what is left of them.
unfoldable pub strncmp : ℕ → ℕ → ℕ → ℕ → Mem → Option (ℤ × Mem)
strncmp fuel str1 str2 max_length m =
    let last = sub32 max_length 1 in
    let m' = write (write m (str1 + last) 0) (str2 + last) 0 in
    elim (strcmp fuel m' str1 str2) [ none ↦ none | some r ↦ some (r, m') ]

unfoldable pub char_in_string : ℕ → Mem → ℕ → ℕ → Option Bool
char_in_string zero m character str = none
char_in_string (suc fuel) m character str =
    let rest = char_in_string fuel m character (str + 1) in
    if m str == 0 then some false else if m str == character then some true else rest

-- `none` inside is NULL.
unfoldable pub strpbrk : ℕ → Mem → ℕ → ℕ → Option (Option ℕ)
unfolding char_in_string
strpbrk zero m str1 str2 = none
strpbrk (suc fuel) m str1 str2 =
    let rest = strpbrk fuel m (str1 + 1) str2 in
    if m str1 == 0 then some none else elim (char_in_string fuel m (m str1) str2) [
      | none ↦ none
      | some found ↦ if found then some (some str1) else rest
    ]

unfoldable pub strspn_loop : ℕ → Mem → ℕ → ℕ → ℕ → Option ℕ
strspn_loop zero m str1 str2 number_of_chars = none
strspn_loop (suc fuel) m str1 str2 number_of_chars =
    let rest = strspn_loop fuel m (str1 + 1) str2 (u32 (number_of_chars + 1)) in
    if m str1 == 0 then some number_of_chars else elim (char_in_string fuel m (m str1) str2) [
      | none ↦ none
      | some found ↦ if not found then some number_of_chars else rest
    ]

unfoldable pub strspn : ℕ → Mem → ℕ → ℕ → Option ℕ
strspn fuel m str1 str2 = strspn_loop fuel m str1 str2 0

-- `character` is the pattern of an `int`.
unfoldable pub strchr : ℕ → Mem → ℕ → ℕ → Option (Option ℕ)
strchr zero m str character = none
strchr (suc fuel) m str character =
    let rest = strchr fuel m (str + 1) character in
    if m str == 0
    then some none
    else if sign_extend8 (m str) == character
    then some (some str)
    else rest

-- The static `old_str` (`none` is NULL), the memory, and the token returned.
pub record TokenState : Type 0 where
  pub old_str : Option ℕ
  pub mem : Mem

-- What `strtok` does at `str`, behind the leading delimiters.
unfoldable pub take_token : ℕ → ℕ → ℕ → TokenState → Option (Option ℕ × TokenState)
take_token fuel str delimiters s =
    if s.mem str == 0 then some (none, s) else elim (strpbrk fuel s.mem str delimiters) [
      | none ↦ none
      | some none ↦ elim (strchr fuel s.mem str 0) [
        | none ↦ none
        | some end ↦ some (some str, record s { old_str = end })
      ]
      | some (some token) ↦
          some (some str, record { old_str = some (token + 1); mem = write s.mem token 0 })
    ]

-- The argument `none` is NULL. NULL as the string to go on with is a read through NULL, and here
-- address 0.
unfoldable pub strtok : ℕ → Option ℕ → ℕ → TokenState → Option (Option ℕ × TokenState)
strtok fuel str delimiters s =
    let start : ℕ = elim str [ some p ↦ p | none ↦ elim s.old_str [ some p ↦ p | none ↦ 0 ] ] in
    elim (strspn fuel s.mem start delimiters) [
      | none ↦ none
      | some skipped ↦ take_token fuel (start + skipped) delimiters s
    ]

-- The loops of `count_chars` and `strstr` do not advance `str` and `haystack`, as in the source.
unfoldable pub count_loop : ℕ → Mem → ℕ → ℕ → ℕ → Option ℕ
count_loop zero m str character count = none
count_loop (suc fuel) m str character count =
    let next = if sign_extend8 (m str) == character then u32 (count + 1) else count in
    let rest = count_loop fuel m str character next in if m str == 0 then some count else rest

unfoldable pub count_chars : ℕ → Mem → ℕ → ℕ → Option ℕ
count_chars fuel m str character = count_loop fuel m str character 0

unfoldable pub strstr_loop : ℕ → Mem → ℕ → ℕ → ℕ → Option ℕ → Option (Option ℕ)
strstr_loop zero m haystack needle needle_iter substr = none
strstr_loop (suc fuel) m haystack needle needle_iter substr =
    let matches = m needle_iter == m haystack in
    let rest =
      strstr_loop fuel m haystack needle (if matches then needle_iter + 1 else needle)
        (if matches then (elim substr [ none ↦ some haystack | some p ↦ some p ]) else none) in
    if m haystack == 0 || (m needle == 0) then some substr else rest

-- The arguments `none` are NULL.
unfoldable pub strstr : ℕ → Mem → Option ℕ → Option ℕ → Option (Option ℕ)
strstr fuel m none needle = some none
strstr fuel m (some haystack) none = some none
strstr fuel m (some haystack) (some needle) = strstr_loop fuel m haystack needle needle none

unfoldable pub strlen_loop : ℕ → Mem → ℕ → ℕ → Option ℕ
strlen_loop zero m str counter = none
strlen_loop (suc fuel) m str counter =
    let rest = strlen_loop fuel m (str + 1) (u32 (counter + 1)) in
    if m str == 0 then some counter else rest

unfoldable pub strlen : ℕ → Mem → ℕ → Option ℕ
strlen fuel m str = strlen_loop fuel m str 0
