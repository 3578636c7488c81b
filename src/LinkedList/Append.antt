-- ===== src/LinkedList/Append.antt =====
-- `add_element` and `size` (kernel/data_structures/list.c) against the sequence of the nodes.
use mike_os.Base.{
  ℕ, zero, suc, ◌+◌, ◌^◌, ◌<◌, ◌≡◌, ◌≢◌, refl, ap, ◌∙◌, true, false, some, List, [], ◌∷◌, ◌++◌,
  arith, length, write, ◌==◌, u32, done,
}
use mike_os.Base.Chain.{
  Distinct-append, IsChain, NotIn, Slot, end_slot, end_slot-next_of, head, last, linked-IsChain,
  next_of,
}
use mike_os.LinkedList.{
  LinkedList, add_element, get_link, last_link, link_node, set_link, size, size_loop,
}
use mike_os.LinkedList.Slots.{IsList, elements}

last_link-end :
    (fuel : ℕ) (slot : Slot) (l : LinkedList) (ns : List ℕ)
    → IsChain l.next (get_link slot l) ns
    → length ns < fuel
    → last_link fuel slot l ≡ some (end_slot slot ns)
unfolding last_link
last_link-end zero slot l ns chain h = absurd (omega arith)
last_link-end (suc fuel) slot l [] chain h = rw chain
last_link-end (suc fuel) slot l (n ∷ ns) (at, ne, rest) h =
    let nonzero : (n == 0) ≡ false = ground arith in
    rw (at, nonzero)
      (last_link-end fuel (next_of n) l ns rest (omega arith) ∙ ap some (end_slot-next_of n ns))

-- The nodes before the new one keep their elements.
elements-fresh :
    (l l' : LinkedList) (fresh element : ℕ) (ns : List ℕ)
    → l'.element_of ≡ write l.element_of fresh element
    → NotIn fresh ns
    → elements l' (ns ++ fresh ∷ []) ≡ elements l ns ++ element ∷ []
elements-fresh l l' fresh element [] e out = ground (arith, ap (λ (f : ℕ → ℕ). f fresh) e)
elements-fresh l l' fresh element (n ∷ ns) e out =
    ground (arith, ap (λ (f : ℕ → ℕ). f n) e, elements-fresh l l' fresh element ns e out.1, out.0)

-- The state after a node is linked behind the nodes `ns`.
pub record IsAppended (l : LinkedList) (ns : List ℕ) (fresh element : ℕ) (l' : LinkedList)
    : Type 0 where
  pub list : IsList l' (ns ++ fresh ∷ [])
  pub contents : elements l' (ns ++ fresh ∷ []) ≡ elements l ns ++ element ∷ []
  pub kept : l'.freed ≡ l.freed

link_node-IsAppended :
    (fresh element : ℕ) (l : LinkedList) (ns : List ℕ)
    → IsList l ns
    → fresh ≢ 0
    → NotIn fresh ns
    → IsAppended l ns fresh element (link_node fresh element (end_slot head ns) l)
unfolding link_node set_link
link_node-IsAppended fresh element l [] ok pos out = record {
  list = record { chain = (refl, pos, ground arith); distinct = (tt, tt) };
  contents = ground arith;
  kept = refl;
}
link_node-IsAppended fresh element l (n ∷ ns) ok pos out = record {
  list = record {
    chain =
        (ok.chain.0, ok.chain.1, linked-IsChain l.next fresh n ns pos out ok.distinct ok.chain.2);
    distinct = Distinct-append (n ∷ ns) fresh ok.distinct out;
  };
  contents =
      elements-fresh l (link_node fresh element (next_of (last n ns)) l) fresh element (n ∷ ns) refl
        out;
  kept = refl;
}

-- `add_element` of a new node puts its element behind those of the list, and keeps the others.
pub add_element-IsAppended :
    (fuel fresh element : ℕ) (l : LinkedList) (ns : List ℕ)
    → IsList l ns
    → length ns < fuel
    → fresh ≢ 0
    → NotIn fresh ns
    → (l' : LinkedList) × (add_element fuel fresh (some l) element ≡ some (done (some l', true)))
      × IsAppended l ns fresh element l'
unfolding add_element get_link
add_element-IsAppended fuel fresh element l ns ok enough pos out =
    let walk = last_link-end fuel head l ns ok.chain enough in
    let nonnull : (fresh == 0) ≡ false = ground arith in
    (
      link_node fresh element (end_slot head ns) l,
      rw (walk, nonnull, add_element)
          (λ _. some (done (some (link_node fresh element (end_slot head ns) l), true))),
      link_node-IsAppended fresh element l ns ok pos out,
    )

size_loop-length :
    (fuel node counter : ℕ) (l : LinkedList) (ns : List ℕ)
    → IsChain l.next node ns
    → length ns < fuel
    → counter + length ns < 2 ^ 32
    → size_loop fuel node l counter ≡ some (counter + length ns)
unfolding size_loop
size_loop-length zero node counter l ns chain h small = absurd (omega arith)
size_loop-length (suc fuel) node counter l [] chain h small = rw chain (ap some (omega arith))
size_loop-length (suc fuel) node counter l (n ∷ ns) (at, ne, rest) h small =
    let nonzero : (n == 0) ≡ false = ground arith in
    let fits : u32 (counter + 1) ≡ counter + 1 = omega arith in
    rw (at, nonzero, fits)
      (size_loop-length fuel (l.next n) (counter + 1) l ns rest (omega arith) (omega arith)
        ∙ ap some (omega arith))

pub size-length :
    (fuel : ℕ) (l : LinkedList) (ns : List ℕ)
    → IsList l ns
    → length ns < fuel
    → length ns < 2 ^ 32
    → size fuel (some l) ≡ some (length ns)
unfolding size
size-length fuel l ns ok enough small =
    size_loop-length fuel l.head_node 0 l ns ok.chain enough (omega arith) ∙ ap some (omega arith)
