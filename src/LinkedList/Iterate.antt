-- ===== src/LinkedList/Iterate.antt =====
-- The iterator of kernel/data_structures/list.c, and what `remove_element` leaves to it.
use mike_os.Base.{
  ℕ, zero, suc, ◌+◌, ◌<◌, ◌≡◌, ◌≢◌, refl, sym, ap, subst, ◌∙◌, true, false, some, List, [], ◌∷◌,
  ◌++◌, arith, length, ◌==◌,
}
use mike_os.Base.Chain.{IsChain}
use mike_os.LinkedList.{LinkedList, iter_list, remove_element}
use mike_os.LinkedList.Slots.{IsList, elements}
use mike_os.LinkedList.Remove.{Absent, remove_element-first}

-- The answers of n calls of `iter_list`.
unfoldable pub answers : ℕ → LinkedList → List ℕ
answers zero l = []
answers (suc n) l = let r = iter_list l in r.1 ∷ answers n r.0

iter_list-rest :
    (n : ℕ) (l : LinkedList) (ns : List ℕ)
    → IsChain l.next l.iter_node ns
    → n ≡ length ns + 1
    → answers n l ≡ elements l ns ++ 0 ∷ []
unfolding answers iter_list
iter_list-rest zero l ns chain count = absurd (omega arith)
iter_list-rest (suc zero) l [] chain count = rw chain
iter_list-rest (suc (suc n)) l [] chain count = absurd (omega arith)
iter_list-rest (suc n) l (m ∷ ns) (at, ne, rest) count =
    let nonzero : (m == 0) ≡ false = ground arith in
    rw (at, nonzero)
      (ap (λ r. l.element_of m ∷ r)
        (iter_list-rest n (record l { iter_node = l.next m }) ns rest (omega arith)))

-- Of a well-formed list whose iterator is on the first node, calls of `iter_list` answer the elements in order and then NULL.
pub iter_list-elements :
    (l : LinkedList) (ns : List ℕ)
    → IsList l ns
    → l.iter_node ≡ l.head_node
    → answers (length ns + 1) l ≡ elements l ns ++ 0 ∷ []
iter_list-elements l ns ok begin =
    iter_list-rest (length ns + 1) l ns (subst (λ p. IsChain l.next p ns) (sym begin) ok.chain) refl

answer_at : (l : LinkedList) (x : ℕ) → l.iter_node ≡ x → x ≢ 0 → (iter_list l).1 ≡ l.element_of x
unfolding iter_list
answer_at l x at some_node = let nonzero : (x == 0) ≡ false = ground arith in rw (at, nonzero)

-- Where the iterator stands on the node that `remove_element` takes out, the next answer is the
-- element of that node, which is in the list no more.
pub remove_element-iter_stale :
    (fuel : ℕ) (l : LinkedList) (us vs : List ℕ) (x : ℕ)
    → IsList l (us ++ x ∷ vs)
    → Absent l (l.element_of x) us
    → Absent l (l.element_of x) vs
    → length us < fuel
    → l.iter_node ≡ x
    → x ≢ 0
    → (l' : LinkedList) × (remove_element fuel l (l.element_of x) ≡ some (l', true))
      × Absent l (l.element_of x) (us ++ vs)
      × ((iter_list l').1 ≡ l.element_of x)
remove_element-iter_stale fuel l us vs x ok before behind enough at some_node =
    let r = remove_element-first fuel l us vs x ok before enough in
    (
      r.0,
      r.1,
      Absent-append us vs before behind,
      answer_at r.0 x (r.4 ∙ at) some_node ∙ ap (λ (f : ℕ → ℕ). f x) r.5,
    )
  where
    Absent-append :
        (ps qs : List ℕ)
        → Absent l (l.element_of x) ps
        → Absent l (l.element_of x) qs
        → Absent l (l.element_of x) (ps ++ qs)
    Absent-append [] qs p q = q
    Absent-append (m ∷ ps) qs p q = (p.0, Absent-append ps qs p.1 q)
