-- ===== src/LinkedList/Refine.antt =====
-- The operations of kernel/data_structures/list.c implement those of a sequence of elements.
use mike_os.Base.{
  ap, inr, ℕ, zero, suc, ◌^◌, ◌≤◌, ◌<◌, ◌≡◌, ◌≢◌, ◌⊎◌, inl, refl, sym, subst, ◌∙◌, Bool, true,
  false, some, List, [], ◌∷◌, ◌++◌, arith, if◌then◌else◌, length, Bool-cases, length-append, ltb,
  ◌==◌, done,
}
use mike_os.Base.Chain.{NotIn}
use mike_os.LinkedList.{LinkedList, add_element, is_empty, pop_element, remove_element, size}
use mike_os.LinkedList.Slots.{IsList, elements}
use mike_os.LinkedList.Append.{add_element-IsAppended, size-length}
use mike_os.LinkedList.Remove.{
  Absent, pop_element-at, pop_element-outside, remove_element-Absent, remove_element-first,
}

-- The sequence and the element at an index, which is taken out; 0 answers an index that is outside.
unfoldable pub take_at : ℕ → List ℕ → List ℕ × ℕ
take_at k [] = ([], 0)
take_at zero (x ∷ xs) = (xs, x)
take_at (suc k) (x ∷ xs) = let r = take_at k xs in (x ∷ r.0, r.1)

-- The sequence without the first occurrence of an element, and whether there was one.
unfoldable pub take_first : ℕ → List ℕ → List ℕ × Bool
take_first e [] = ([], false)
take_first e (x ∷ xs) = let r = take_first e xs in if x == e then (xs, true) else (x ∷ r.0, r.1)

abbrev pub is_nil : List ℕ → Bool
is_nil [] = true
is_nil (x ∷ xs) = false

-- A list of nodes that stands for a sequence of elements.
abbrev pub Represents : LinkedList → List ℕ → Type 0
Represents l xs = (ns : List ℕ) × IsList l ns × (elements l ns ≡ xs)

length-elements : (l : LinkedList) (ns : List ℕ) → length (elements l ns) ≡ length ns
length-elements l [] = refl
length-elements l (n ∷ ns) = omega (arith, length-elements l ns)

take_at-outside : (k : ℕ) (xs : List ℕ) → length xs ≤ k → take_at k xs ≡ (xs, 0)
unfolding take_at
take_at-outside k [] beyond = refl
take_at-outside zero (x ∷ xs) beyond = absurd (omega arith)
take_at-outside (suc k) (x ∷ xs) beyond =
    ap (λ (r : List ℕ × ℕ). (x ∷ r.0, r.1)) (take_at-outside k xs (omega arith))

-- The node at an index, between those before and behind it.
split_at :
    (l : LinkedList) (ns : List ℕ) (k : ℕ)
    → k < length ns
    → (us : List ℕ) × (x : ℕ) × (vs : List ℕ) × (ns ≡ us ++ x ∷ vs)
      × (length us ≡ k)
      × (take_at k (elements l ns) ≡ (elements l us ++ elements l vs, l.element_of x))
unfolding take_at
split_at l [] k inside = absurd (omega arith)
split_at l (n ∷ ns) zero inside = ([], n, ns, refl, refl, refl)
split_at l (n ∷ ns) (suc k) inside =
    let (us, x, vs, parts, at, taken) = split_at l ns k (omega arith) in
    (
      n ∷ us,
      x,
      vs,
      ap (λ r. n ∷ r) parts,
      omega (arith, at),
      ap (λ (r : List ℕ × ℕ). (l.element_of n ∷ r.0, r.1)) taken,
    )

-- The first node with an element, or its absence.
find_element :
    (l : LinkedList) (ns : List ℕ) (e : ℕ)
    → ((us : List ℕ) × (x : ℕ) × (vs : List ℕ) × (ns ≡ us ++ x ∷ vs)
        × (l.element_of x ≡ e)
        × Absent l e us
        × (take_first e (elements l ns) ≡ (elements l us ++ elements l vs, true)))
      ⊎ (Absent l e ns × (take_first e (elements l ns) ≡ (elements l ns, false)))
unfolding take_first
find_element l [] e = inr (tt, refl)
find_element l (n ∷ ns) e = elim (Bool-cases (l.element_of n == e)) [
  | inl here ↦ inl ([], n, ns, refl, ground arith, tt, rw here)
  | inr other ↦ elim (find_element l ns e) [
    | inl (us, x, vs, parts, at, before, taken) ↦ inl (
      n ∷ us,
      x,
      vs,
      ap (λ r. n ∷ r) parts,
      at,
      (ground arith, before),
      rw other (ap (λ (r : List ℕ × Bool). (l.element_of n ∷ r.0, r.1)) taken),
    )
    | inr (absent, taken) ↦ inr (
      (ground arith, absent),
      rw other (ap (λ (r : List ℕ × Bool). (l.element_of n ∷ r.0, r.1)) taken),
    )
  ]
]

pop_element-take_at :
    (fuel k : ℕ) (l : LinkedList) (ns : List ℕ)
    → IsList l ns
    → length ns < fuel
    → length ns < 2 ^ 31
    → k < 2 ^ 32
    → (l' : LinkedList) × (pop_element fuel (some l) k
        ≡ some (some l', (take_at k (elements l ns)).1))
      × Represents l' (take_at k (elements l ns)).0
pop_element-take_at fuel k l ns ok enough small word = elim (Bool-cases (ltb k (length ns))) [
  | inl inside ↦
      let (us, x, vs, parts, at, taken) = split_at l ns k (ground arith) in
      let r =
        pop_element-at fuel l us vs x (subst (IsList l) parts ok) (ground (arith, at))
          (ground (arith, at)) in
      rw taken (
        r.0,
        subst (λ i. pop_element fuel (some l) i ≡ some (some r.0, l.element_of x)) at r.1,
        (us ++ vs, r.2.list, r.2.contents),
      )
  | inr outside ↦
      let same = take_at-outside k (elements l ns) (ground (arith, length-elements l ns)) in
      rw same (l, pop_element-outside fuel l ns k ok enough word (ground arith), (ns, ok, refl))
]

remove_element-take_first :
    (fuel e : ℕ) (l : LinkedList) (ns : List ℕ)
    → IsList l ns
    → length ns < fuel
    → (l' : LinkedList) × (remove_element fuel l e ≡ some (l', (take_first e (elements l ns)).1))
      × Represents l' (take_first e (elements l ns)).0
remove_element-take_first fuel e l ns ok enough = elim (find_element l ns e) [
  | inl (us, x, vs, parts, at, before, taken) ↦
      let shorter : length us < fuel = omega (arith, ap length parts, length-append us (x ∷ vs)) in
      let r =
        remove_element-first fuel l us vs x (subst (IsList l) parts ok)
          (subst (λ f. Absent l f us) (sym at) before) shorter in
      rw taken (
        r.0,
        subst (λ f. remove_element fuel l f ≡ some (r.0, true)) at r.1,
        (us ++ vs, r.2.list, r.2.contents),
      )
  | inr (absent, taken) ↦
      rw taken (l, remove_element-Absent fuel l ns e ok absent enough, (ns, ok, refl))
]

is_empty-is_nil :
    (l : LinkedList) (ns : List ℕ) → IsList l ns → is_empty (some l) ≡ is_nil (elements l ns)
unfolding is_empty
is_empty-is_nil l [] ok = let at = ok.chain in ground arith
is_empty-is_nil l (n ∷ ns) ok = let at = ok.chain in ground arith

-- Of a list of fewer than 2 ^ 31 nodes, with fuel for them: every operation answers what the operation
-- on the sequence of its elements answers, and leaves a list that stands for the sequence which
-- that one leaves. `add_element`, of a node that is not in the list, appends; `pop_element` takes
-- the element at the index out, where an index that is outside or negative is answered by NULL;
-- `remove_element` takes the first occurrence out; `size` counts, and `is_empty` tests for none.
pub linked_list-refines :
    (fuel : ℕ) (l : LinkedList) (ns : List ℕ)
    → IsList l ns
    → length ns < fuel
    → length ns < 2 ^ 31
    → let xs = elements l ns in
      ((fresh e : ℕ)
        → fresh ≢ 0
        → NotIn fresh ns
        → (l' : LinkedList) × (add_element fuel fresh (some l) e ≡ some (done (some l', true)))
          × Represents l' (xs ++ e ∷ []))
      × ((k : ℕ)
          → k < 2 ^ 32
          → (l' : LinkedList) × (pop_element fuel (some l) k ≡ some (some l', (take_at k xs).1))
            × Represents l' (take_at k xs).0)
      × ((e : ℕ)
          → (l' : LinkedList) × (remove_element fuel l e ≡ some (l', (take_first e xs).1))
            × Represents l' (take_first e xs).0)
      × (size fuel (some l) ≡ some (length xs))
      × (is_empty (some l) ≡ is_nil xs)
linked_list-refines fuel l ns ok enough small = (
  λ fresh e some_node out.
      let r = add_element-IsAppended fuel fresh e l ns ok enough some_node out in
      (r.0, r.1, (ns ++ fresh ∷ [], r.2.list, r.2.contents)),
  λ k word. pop_element-take_at fuel k l ns ok enough small word,
  λ e. remove_element-take_first fuel e l ns ok enough,
  size-length fuel l ns ok enough (omega arith) ∙ ap some (sym (length-elements l ns)),
  is_empty-is_nil l ns ok,
)
