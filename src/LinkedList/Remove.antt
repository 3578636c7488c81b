-- ===== src/LinkedList/Remove.antt =====
-- `pop_element` and `remove_element` (kernel/data_structures/list.c) against the sequence of the nodes.
use mike_os.Base.{
  ℕ, zero, suc, ◌-◌, ◌^◌, ◌≤◌, ◌<◌, ◌≡◌, ◌≢◌, inl, inr, refl, ap, ◌∙◌, true, false, some, List, [],
  ◌∷◌, ◌++◌, arith, length, Bool-cases, leb, ◌==◌, sub32,
}
use mike_os.Base.Chain.{IsChain, Slot, end_slot, head, next_of}
use mike_os.LinkedList.{
  LinkedList, get_link, pop_element, pop_loop, remove_element, remove_loop, set_link, unlink_node,
}
use mike_os.LinkedList.Slots.{
  IsList, bypassed-IsList, elements, elements-append, elements-same, set_link-rest,
}

end_slot-step :
    (slot : Slot) (n : ℕ) (us : List ℕ) → end_slot (next_of n) us ≡ end_slot slot (n ∷ us)
end_slot-step slot n [] = refl
end_slot-step slot n (u ∷ us) = refl

pop_loop-split :
    (fuel : ℕ) (slot : Slot) (l : LinkedList) (us vs : List ℕ) (x : ℕ)
    → IsChain l.next (get_link slot l) (us ++ x ∷ vs)
    → length us < fuel
    → length us < 2 ^ 31
    → pop_loop fuel slot (length us) l ≡ some (unlink_node (end_slot slot us) x l)
unfolding pop_loop
pop_loop-split zero slot l us vs x chain enough small = absurd (omega arith)
pop_loop-split (suc fuel) slot l [] vs x chain enough small =
    let nonzero : (x == 0) ≡ false = ground (arith, chain.1) in rw (chain.0, nonzero)
pop_loop-split (suc fuel) slot l (n ∷ us) vs x chain enough small =
    let nonzero : (n == 0) ≡ false = ground (arith, chain.1) in
    let index : sub32 (suc (length us)) 1 ≡ length us = omega arith in
    let more : (suc (length us) == 0) ≡ false = ground arith in
    rw (chain.0, nonzero, index, more)
      (pop_loop-split fuel (next_of n) l us vs x chain.2 (omega arith) (omega arith)
        ∙ ap (λ s. some (unlink_node s x l)) (end_slot-step slot n us))

pop_loop-beyond :
    (fuel : ℕ) (slot : Slot) (l : LinkedList) (ns : List ℕ) (index : ℕ)
    → IsChain l.next (get_link slot l) ns
    → length ns < fuel
    → length ns ≤ index
    → index < 2 ^ 31
    → pop_loop fuel slot index l ≡ some (l, 0)
unfolding pop_loop
pop_loop-beyond zero slot l ns index chain enough beyond small = absurd (omega arith)
pop_loop-beyond (suc fuel) slot l [] index chain enough beyond small = rw chain
pop_loop-beyond (suc fuel) slot l (n ∷ ns) index (at, ne, rest) enough beyond small =
    let nonzero : (n == 0) ≡ false = ground arith in
    let less : sub32 index 1 ≡ index - 1 = omega arith in
    let more : (index == 0) ≡ false = ground arith in
    rw (at, nonzero, less, more)
      (pop_loop-beyond fuel (next_of n) l ns (index - 1) rest (omega arith) (omega arith)
        (omega arith))

-- The state after the node `x` between `us` and `vs` is taken out.
pub record IsTaken (l : LinkedList) (us vs : List ℕ) (l' : LinkedList) : Type 0 where
  pub list : IsList l' (us ++ vs)
  pub contents : elements l' (us ++ vs) ≡ elements l us ++ elements l vs

bypassed-IsTaken :
    (l : LinkedList) (x : ℕ) (us vs : List ℕ)
    → IsList l (us ++ x ∷ vs)
    → IsTaken l us vs (set_link (end_slot head us) (l.next x) l)
bypassed-IsTaken l x us vs ok = record {
  list = bypassed-IsList l x us vs ok;
  contents =
      elements-same l (set_link (end_slot head us) (l.next x) l) (us ++ vs)
        (set_link-rest (end_slot head us) (l.next x) l).0
      ∙ elements-append l us vs;
}

-- `pop_element` takes the node at the index out of the list, gives it back to the heap, answers its
-- element and lets the iterator begin again; an index behind the end or below 0 changes nothing
-- and answers NULL.
pub pop_element-at :
    (fuel : ℕ) (l : LinkedList) (us vs : List ℕ) (x : ℕ)
    → IsList l (us ++ x ∷ vs)
    → length us < fuel
    → length us < 2 ^ 31
    → (l' : LinkedList) × (pop_element fuel (some l) (length us) ≡ some (some l', l.element_of x))
      × IsTaken l us vs l'
      × (l'.freed ≡ x ∷ l.freed)
      × (l'.iter_node ≡ l'.head_node)
unfolding pop_element get_link unlink_node
pop_element-at fuel l us vs x ok enough small =
    let inside : leb (2 ^ 31) (length us) ≡ false = ground arith in
    let found = pop_loop-split fuel head l us vs x ok.chain enough small in
    let l1 = set_link (end_slot head us) (l.next x) l in
    let taken = bypassed-IsTaken l x us vs ok in
    let same = ap (λ (f : ℕ → ℕ). f x) (set_link-rest (end_slot head us) (l.next x) l).0 in
    (
      (unlink_node (end_slot head us) x l).0,
      rw (inside, found, same)
          (λ _. some (some (unlink_node (end_slot head us) x l).0, l.element_of x)),
      record {
        list = record { chain = taken.list.chain; distinct = taken.list.distinct };
        contents =
            elements-same l1 (unlink_node (end_slot head us) x l).0 (us ++ vs) refl
            ∙ taken.contents;
      },
      ap (λ r. x ∷ r) (set_link-rest (end_slot head us) (l.next x) l).1,
      refl,
    )

pub pop_element-outside :
    (fuel : ℕ) (l : LinkedList) (ns : List ℕ) (index : ℕ)
    → IsList l ns
    → length ns < fuel
    → index < 2 ^ 32
    → length ns ≤ index
    → pop_element fuel (some l) index ≡ some (some l, 0)
unfolding pop_element get_link
pop_element-outside fuel l ns index ok enough word beyond = elim (Bool-cases (leb (2 ^ 31) index)) [
  | inl negative ↦ rw negative
  | inr inside ↦
      rw (inside, pop_loop-beyond fuel head l ns index ok.chain enough beyond (ground arith))
]

-- An element that is in none of the nodes.
abbrev pub Absent : LinkedList → ℕ → List ℕ → Type 0
Absent l element [] = Unit
Absent l element (n ∷ ns) = (l.element_of n ≢ element) × Absent l element ns

remove_loop-split :
    (fuel : ℕ) (slot : Slot) (l : LinkedList) (us vs : List ℕ) (x : ℕ)
    → IsChain l.next (get_link slot l) (us ++ x ∷ vs)
    → Absent l (l.element_of x) us
    → length us < fuel
    → remove_loop fuel slot (l.element_of x) l
      ≡ some (set_link (end_slot slot us) (l.next x) l, true)
unfolding remove_loop
remove_loop-split zero slot l us vs x chain before enough = absurd (omega arith)
remove_loop-split (suc fuel) slot l [] vs x chain before enough =
    let nonzero : (x == 0) ≡ false = ground (arith, chain.1) in
    let same : (l.element_of x == l.element_of x) ≡ true = ground arith in
    rw (chain.0, nonzero, same)
remove_loop-split (suc fuel) slot l (n ∷ us) vs x chain before enough =
    let nonzero : (n == 0) ≡ false = ground (arith, chain.1) in
    let differs : (l.element_of n == l.element_of x) ≡ false = ground (arith, before.0) in
    rw (chain.0, nonzero, differs)
      (remove_loop-split fuel (next_of n) l us vs x chain.2 before.1 (omega arith)
        ∙ ap (λ s. some (set_link s (l.next x) l, true)) (end_slot-step slot n us))

remove_loop-Absent :
    (fuel : ℕ) (slot : Slot) (l : LinkedList) (ns : List ℕ) (element : ℕ)
    → IsChain l.next (get_link slot l) ns
    → Absent l element ns
    → length ns < fuel
    → remove_loop fuel slot element l ≡ some (l, false)
unfolding remove_loop
remove_loop-Absent zero slot l ns element chain none_of enough = absurd (omega arith)
remove_loop-Absent (suc fuel) slot l [] element chain none_of enough = rw chain
remove_loop-Absent (suc fuel) slot l (n ∷ ns) element (at, ne, rest) none_of enough =
    let nonzero : (n == 0) ≡ false = ground arith in
    let differs : (l.element_of n == element) ≡ false = ground (arith, none_of.0) in
    rw (at, nonzero, differs)
      (remove_loop-Absent fuel (next_of n) l ns element rest none_of.1 (omega arith))

-- `remove_element` takes the first node with the element out of the list, and leaves the list as it
-- is where there is none. The node is not given back to the heap, and the iterator stays, even on
-- the node that was taken out.
pub remove_element-first :
    (fuel : ℕ) (l : LinkedList) (us vs : List ℕ) (x : ℕ)
    → IsList l (us ++ x ∷ vs)
    → Absent l (l.element_of x) us
    → length us < fuel
    → (l' : LinkedList) × (remove_element fuel l (l.element_of x) ≡ some (l', true))
      × IsTaken l us vs l'
      × (l'.freed ≡ l.freed)
      × (l'.iter_node ≡ l.iter_node)
      × (l'.element_of ≡ l.element_of)
unfolding remove_element get_link
remove_element-first fuel l us vs x ok before enough = (
  set_link (end_slot head us) (l.next x) l,
  remove_loop-split fuel head l us vs x ok.chain before enough,
  bypassed-IsTaken l x us vs ok,
  (set_link-rest (end_slot head us) (l.next x) l).1,
  (set_link-rest (end_slot head us) (l.next x) l).2,
  (set_link-rest (end_slot head us) (l.next x) l).0,
)

pub remove_element-Absent :
    (fuel : ℕ) (l : LinkedList) (ns : List ℕ) (element : ℕ)
    → IsList l ns
    → Absent l element ns
    → length ns < fuel
    → remove_element fuel l element ≡ some (l, false)
unfolding remove_element get_link
remove_element-Absent fuel l ns element ok none_of enough =
    remove_loop-Absent fuel head l ns element ok.chain none_of enough
