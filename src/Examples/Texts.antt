-- ===== src/Examples/Texts.antt =====
-- Concrete texts for libc/string.c and libc/stdio.c.
use mike_os.Base.{
  ℕ, suc, ◌+◌, ◌-◌, ◌^◌, ◌≤◌, ◌<◌, ◌≡◌, ◌↔◌, ◌⊎◌, inr, refl, true, false, ◌||◌, none, some, List,
  [], ◌∷◌, arith, ◌==◌, if◌then◌else◌, length,
}
use mike_os.Base.Int.{pos, negsuc}
use mike_os.Memory.{Mem}
use mike_os.Printf.{padding, printi, prints}
use mike_os.Printf.Digits.{AllDecimal, decimal, printi-decimal}
use mike_os.Strings.{TokenState, count_chars, strcmp, strcpy, strstr}
use mike_os.Strings.Compare.{AllBytes, strcmp-zero_iff}
use mike_os.Strings.Stuck.{count_chars-strstr_stuck}
use mike_os.Strings.Texts.{IsText, strcpy-IsText}

-- "ab" at 10, "abc" at 20 and 30, and a text of the one byte 'c' at 40.
abbrev texts : Mem
texts a =
    if (a == 10) || (a == 20) || (a == 30)
    then 97
    else if (a == 11) || (a == 21) || (a == 31)
    then 98
    else if (a == 22) || (a == 32) || (a == 40)
    then 99
    else 0

abbrev ab : List ℕ
ab = 97 ∷ 98 ∷ []

abbrev abc : List ℕ
abc = 97 ∷ 98 ∷ 99 ∷ []

ab-IsText : IsText texts 10 ab
ab-IsText = (refl, λ e. absurd (omega arith), (refl, λ e. absurd (omega arith), refl))

abc-IsText : IsText texts 20 abc
abc-IsText = (
  refl,
  λ e. absurd (omega arith),
  (refl, λ e. absurd (omega arith), (refl, λ e. absurd (omega arith), refl)),
)

c-IsText : IsText texts 40 (99 ∷ [])
c-IsText = (refl, λ e. absurd (omega arith), refl)

ab_bytes : AllBytes ab
ab_bytes = (omega arith, (omega arith, tt))

abc_bytes : AllBytes abc
abc_bytes = (omega arith, (omega arith, (omega arith, tt)))

strcpy-IsText_example :
    (m' : Mem) × (strcpy 9 50 20 texts ≡ some (50 + length abc + 1, m'))
    × IsText m' 50 abc
    × IsText m' 20 abc
    × ((a : ℕ) → (a < 50) ⊎ (50 + length abc < a) → m' a ≡ texts a)
strcpy-IsText_example = strcpy-IsText 9 50 20 texts abc abc-IsText (omega arith) (inr (omega arith))

strcmp-zero_iff_example : (strcmp 9 texts 10 20 ≡ some (pos 0)) ↔ (ab ≡ abc)
strcmp-zero_iff_example =
    strcmp-zero_iff 9 texts 10 20 ab abc ab_bytes abc_bytes ab-IsText abc-IsText (omega arith)

ab_first : strcmp 9 texts 10 20 ≡ some (negsuc 0)
unfolding strcmp
ab_first = refl

abbrev tokens : TokenState
tokens = record { old_str = none; mem = texts }

count_chars-strstr_stuck_example :
    (count_chars 9 texts 10 47 ≡ none) × (strstr 9 texts (some 10) (some 20) ≡ none)
count_chars-strstr_stuck_example =
    count_chars-strstr_stuck 9 texts 10 47 20 (λ e. absurd (omega arith))
      (λ e. absurd (omega arith))

printi-decimal_example :
    ((t : List ℕ) × (printi (2 ^ 32 - 7) 10 false 0 0 97 ≡ some (t, length t))
      × AllDecimal t
      × (decimal 0 t ≡ 2 ^ 32 - 7)
      × (length t ≤ 10))
    × (2 ^ 31 ≤ 2 ^ 32 - 7
        → (t : List ℕ) × (printi (2 ^ 32 - 7) 10 true 0 0 97 ≡ some (45 ∷ t, suc (length t)))
          × AllDecimal t
          × (decimal 0 t ≡ 2 ^ 32 - (2 ^ 32 - 7))
          × (length t ≤ 10))
printi-decimal_example = printi-decimal (2 ^ 32 - 7) 97 (omega arith) (omega arith)

padded : prints abc 5 2 ≡ (48 ∷ 48 ∷ abc, 5)
unfolding prints padding
padded = refl
