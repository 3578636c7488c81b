-- ===== src/Base/Results.antt =====
-- The result of code that may run into undefined behaviour.
use mathlib.Core.Path.{◌≡◌, refl}
use mathlib.Core.Logic.{◌⊎◌, inl, inr}

-- `undefined` is a control path on which C gives no value, such as the end of a function that
-- should return one.
pub data Outcome (A : Type 0) : Type 0 where
  done : A → Outcome A
  undefined : Outcome A

-- To split on an outcome and keep the equation.
pub Outcome-cases : {A : Type 0} (r : Outcome A) → (r ≡ undefined) ⊎ ((a : A) × (r ≡ done a))
Outcome-cases undefined = inl refl
Outcome-cases (done a) = inr (a, refl)

pub done-injective : {A : Type 0} {a b : A} → done a ≡ done b → a ≡ b
done-injective e = cc
