-- ===== src/LinkedList/Slots.antt =====
-- The links that the walks of kernel/data_structures/list.c come to, and chains with a node taken out.
use mike_os.Base.{ℕ, ◌≡◌, ◌≢◌, refl, sym, ap, subst, List, [], ◌∷◌, ◌++◌, arith, write}
use mike_os.Base.Chain.{Distinct, IsChain, NotIn, Slot, end_slot, head, last, next_of}
use mike_os.LinkedList.{LinkedList, set_link}

-- The list holds the nodes `ns`, in order.
pub record IsList (l : LinkedList) (ns : List ℕ) : Type 0 where
  pub chain : IsChain l.next l.head_node ns
  pub distinct : Distinct ns

-- What the list stands for: its elements, in order.
abbrev pub elements : LinkedList → List ℕ → List ℕ
elements l [] = []
elements l (n ∷ ns) = l.element_of n ∷ elements l ns

-- A write to a node that is not in the chain leaves the chain us it is.
IsChain-write :
    (next : ℕ → ℕ) (a v p : ℕ) (ns : List ℕ)
    → NotIn a ns
    → IsChain next p ns
    → IsChain (write next a v) p ns
IsChain-write next a v p [] out chain = chain
IsChain-write next a v p (n ∷ ns) out (at, ne, rest) =
    let same : write next a v n ≡ next n = ground (arith, out.0) in
    (
      at,
      ne,
      subst (λ q. IsChain (write next a v) q ns) (sym same)
          (IsChain-write next a v (next n) ns out.1 rest),
    )

NotIn-split : (y x : ℕ) (us vs : List ℕ) → NotIn y (us ++ x ∷ vs) → NotIn y (us ++ vs) × (y ≢ x)
NotIn-split y x [] vs out = (out.1, out.0)
NotIn-split y x (a ∷ us) vs out = let r = NotIn-split y x us vs out.1 in ((out.0, r.0), r.1)

Distinct-split : (x : ℕ) (us vs : List ℕ) → Distinct (us ++ x ∷ vs) → Distinct (us ++ vs)
Distinct-split x [] vs d = d.1
Distinct-split x (a ∷ us) vs d = ((NotIn-split a x us vs d.0).0, Distinct-split x us vs d.1)

last-ne_outside : (y z : ℕ) (us vs : List ℕ) → NotIn y (z ∷ us ++ vs) → last z us ≢ y
last-ne_outside y z [] vs out = λ e. out.0 (sym e)
last-ne_outside y z (a ∷ us) vs out = last-ne_outside y a us vs out.1

-- Behind `y` the node `x` is bypassed.
bypassed-IsChain :
    (next : ℕ → ℕ) (y x : ℕ) (us vs : List ℕ)
    → Distinct (y ∷ us ++ x ∷ vs)
    → IsChain next (next y) (us ++ x ∷ vs)
    → IsChain (write next (last y us) (next x)) (write next (last y us) (next x) y) (us ++ vs)
bypassed-IsChain next y x [] vs d (at, ne, rest) =
    let here : write next y (next x) y ≡ next x = ground arith in
    subst (λ q. IsChain (write next y (next x)) q vs) (sym here)
      (IsChain-write next y (next x) (next x) vs d.0.1 rest)
bypassed-IsChain next y x (z ∷ us) vs d (at, ne, rest) =
    let apart = last-ne_outside y z us (x ∷ vs) d.0 in
    (ground (arith, apart, at), ne, bypassed-IsChain next z x us vs d.1 rest)

-- Taking out the node behind the nodes `us` leaves the others in order.
pub bypassed-IsList :
    (l : LinkedList) (x : ℕ) (us vs : List ℕ)
    → IsList l (us ++ x ∷ vs)
    → IsList (set_link (end_slot head us) (l.next x) l) (us ++ vs)
unfolding set_link
bypassed-IsList l x [] vs ok = record { chain = ok.chain.2; distinct = ok.distinct.1 }
bypassed-IsList l x (y ∷ us) vs ok = record {
  chain = (ok.chain.0, ok.chain.1, bypassed-IsChain l.next y x us vs ok.distinct ok.chain.2);
  distinct = Distinct-split x (y ∷ us) vs ok.distinct;
}

pub elements-append :
    (l : LinkedList) (us vs : List ℕ) → elements l (us ++ vs) ≡ elements l us ++ elements l vs
elements-append l [] vs = refl
elements-append l (a ∷ us) vs = ap (λ r. l.element_of a ∷ r) (elements-append l us vs)

-- The elements depend on `element_of` alone.
pub elements-same :
    (l l' : LinkedList) (ns : List ℕ)
    → l'.element_of ≡ l.element_of
    → elements l' ns ≡ elements l ns
elements-same l l' [] e = refl
elements-same l l' (n ∷ ns) e = ground (arith, ap (λ (f : ℕ → ℕ). f n) e, elements-same l l' ns e)

-- A write to a link changes nothing else.
pub set_link-rest :
    (slot : Slot) (v : ℕ) (l : LinkedList)
    → ((set_link slot v l).element_of ≡ l.element_of)
      × ((set_link slot v l).freed ≡ l.freed)
      × ((set_link slot v l).iter_node ≡ l.iter_node)
unfolding set_link
set_link-rest head v l = (refl, refl, refl)
set_link-rest (next_of p) v l = (refl, refl, refl)
