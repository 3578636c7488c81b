-- ===== src/Strings/Stuck.antt =====
-- The loops of libc/string.c that do not advance.
use mike_os.Base.{
  ℕ, zero, suc, ◌+◌, ◌≡◌, ◌≢◌, refl, arith, Option, none, some, false, ◌==◌, if◌then◌else◌, u32,
  sign_extend8,
}
use mike_os.Memory.{Mem}
use mike_os.Strings.{count_loop, count_chars, strstr_loop, strstr}

count_loop-stuck : (fuel : ℕ) (m : Mem) (p c n : ℕ) → m p ≢ 0 → count_loop fuel m p c n ≡ none
unfolding count_loop
count_loop-stuck zero m p c n ne = refl
count_loop-stuck (suc fuel) m p c n ne =
    ground (arith, count_loop-stuck fuel m p c (if sign_extend8 (m p) == c then u32 (n + 1) else n))

strstr_loop-stuck :
    (fuel : ℕ) (m : Mem) (p q r : ℕ) (substr : Option ℕ)
    → m p ≢ 0
    → m q ≢ 0
    → strstr_loop fuel m p q r substr ≡ none
unfolding strstr_loop
strstr_loop-stuck zero m p q r substr hp hq = refl
strstr_loop-stuck (suc fuel) m p q r substr hp hq =
    let a : (m p == 0) ≡ false = ground arith in
    let b : (m q == 0) ≡ false = ground arith in rw (a, b) (strstr_loop-stuck fuel m p q _ _ hp hq)

-- On a text that is not empty `count_chars` never ends, and neither does `strstr` on two such texts:
-- no amount of fuel is enough.
pub count_chars-strstr_stuck :
    (fuel : ℕ) (m : Mem) (p c q : ℕ)
    → m p ≢ 0
    → m q ≢ 0
    → (count_chars fuel m p c ≡ none) × (strstr fuel m (some p) (some q) ≡ none)
unfolding count_chars strstr
count_chars-strstr_stuck fuel m p c q hp hq =
    (count_loop-stuck fuel m p c 0 hp, strstr_loop-stuck fuel m p q q none hp hq)
