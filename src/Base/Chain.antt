-- ===== src/Base/Chain.antt =====
-- Chains of links in a store: the nodes that the links lead through, and a node linked at the end.
use Prim.Native.Nat.{ℕ}
use mathlib.Core.Path.{◌≡◌, refl, sym}
use mathlib.Core.Logic.{◌≢◌}
use mathlib.Core.List.{List, [], ◌∷◌, ◌++◌}
use native.Mathlib.Omega.{arith}
use mike_os.Base.Store.{write}

-- The address of a variable that holds the first node, or of a node's link.
pub data Slot : Type 0 where
  head : Slot
  next_of : ℕ → Slot

-- From the address `p` the links lead through the nodes `xs` to NULL.
abbrev pub IsChain : (ℕ → ℕ) → ℕ → List ℕ → Type 0
IsChain next p [] = p ≡ 0
IsChain next p (x ∷ xs) = (p ≡ x) × (x ≢ 0) × IsChain next (next x) xs

abbrev pub NotIn : ℕ → List ℕ → Type 0
NotIn a [] = Unit
NotIn a (x ∷ xs) = (a ≢ x) × NotIn a xs

abbrev pub Distinct : List ℕ → Type 0
Distinct [] = Unit
Distinct (x ∷ xs) = NotIn x xs × Distinct xs

-- The last node of `y ∷ xs`, and the slot that ends a chain which begins in `slot`.
abbrev pub last : ℕ → List ℕ → ℕ
last y [] = y
last y (x ∷ xs) = last x xs

abbrev pub end_slot : Slot → List ℕ → Slot
end_slot slot [] = slot
end_slot slot (x ∷ xs) = next_of (last x xs)

pub end_slot-next_of : (x : ℕ) (xs : List ℕ) → end_slot (next_of x) xs ≡ next_of (last x xs)
end_slot-next_of x [] = refl
end_slot-next_of x (y ∷ xs) = refl

last-ne : (y x : ℕ) (xs : List ℕ) → NotIn y (x ∷ xs) → last x xs ≢ y
last-ne y x [] h = λ e. h.0 (sym e)
last-ne y x (z ∷ xs) h = last-ne y z xs h.1

-- `blk` is linked behind the last node of `y ∷ xs`.
abbrev pub linked : (ℕ → ℕ) → ℕ → ℕ → ℕ → ℕ
linked next e blk = write (write next e blk) blk 0

pub linked-IsChain :
    (next : ℕ → ℕ) (blk y : ℕ) (xs : List ℕ)
    → blk ≢ 0
    → NotIn blk (y ∷ xs)
    → Distinct (y ∷ xs)
    → IsChain next (next y) xs
    → IsChain (linked next (last y xs) blk) (linked next (last y xs) blk y) (xs ++ blk ∷ [])
linked-IsChain next blk y [] pos out distinct chain = (ground arith, pos, ground arith)
linked-IsChain next blk y (x ∷ xs) pos out distinct (at, ne, rest) = (
  ground (arith, last-ne y x xs distinct.0),
  ne,
  linked-IsChain next blk x xs pos out.1 distinct.1 rest,
)

pub Distinct-append :
    (xs : List ℕ) (blk : ℕ) → Distinct xs → NotIn blk xs → Distinct (xs ++ blk ∷ [])
Distinct-append [] blk d out = (tt, tt)
Distinct-append (x ∷ xs) blk d out =
    (NotIn-append x xs blk d.0 (λ e. out.0 (sym e)), Distinct-append xs blk d.1 out.1)
  where
    NotIn-append : (a : ℕ) (ys : List ℕ) (c : ℕ) → NotIn a ys → a ≢ c → NotIn a (ys ++ c ∷ [])
    NotIn-append a [] c out ne = (ne, tt)
    NotIn-append a (y ∷ ys) c out ne = (out.0, NotIn-append a ys c out.1 ne)
