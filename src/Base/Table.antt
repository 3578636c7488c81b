-- ===== src/Base/Table.antt =====
-- Checking a fact for every number below a bound by evaluation.
use Prim.Native.Nat.{ℕ, zero, suc, ◌*◌, ◌+◌, ◌<◌, bit_or}
use mathlib.Core.Path.{◌≡◌, refl}
use mathlib.Core.Bool.{Bool, true, false}
use native.Mathlib.Omega.{arith}
use mike_os.Base.Tests.{◌==◌, ==_iff, if◌then◌else◌}

unfoldable pub all_below : ℕ → (ℕ → Bool) → Bool
all_below zero test = true
all_below (suc last) test = if test last then all_below last test else false

pub all_below_sound :
    (bound : ℕ) (test : ℕ → Bool) (x : ℕ) → all_below bound test ≡ true → x < bound → test x ≡ true
unfolding all_below
all_below_sound (suc last) test x passed below =
    let earlier = all_below_sound last test x in ground (arith, earlier)
all_below_sound zero test x passed below = absurd (omega arith)

or_table : all_below 16 (λ q. all_below 16 (λ r. bit_or r (q * 16) == q * 16 + r)) ≡ true
unfolding all_below
or_table = refl

-- `|` of a low and a high nibble of a byte.
pub bit_or-nibbles : (q r : ℕ) → q < 16 → r < 16 → bit_or r (q * 16) ≡ q * 16 + r
bit_or-nibbles q r hq hr = (==_iff _ _).0 (
    all_below_sound 16 (λ (s : ℕ). bit_or s (q * 16) == q * 16 + s) r
      (all_below_sound 16 (λ (t : ℕ). all_below 16 (λ s. bit_or s (t * 16) == t * 16 + s)) q
        or_table hq)
      hr)
