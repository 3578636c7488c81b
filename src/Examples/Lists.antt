-- ===== src/Examples/Lists.antt =====
-- A concrete list for kernel/data_structures/list.c: the nodes 4, 8 and 6 with the elements 40, 80 and 60.
use mike_os.Base.{
  ℕ, ◌*◌, ◌^◌, ◌<◌, ◌≡◌, ◌≢◌, refl, true, some, List, [], ◌∷◌, ◌++◌, arith, if◌then◌else◌, length,
  ◌==◌, done,
}
use mike_os.Base.Chain.{NotIn}
use mike_os.LinkedList.{LinkedList, add_element, is_empty, pop_element, remove_element, size}
use mike_os.LinkedList.Slots.{IsList, elements}
use mike_os.LinkedList.Refine.{Represents, is_nil, linked_list-refines, take_at, take_first}
use mike_os.LinkedList.Iterate.{answers, iter_list-elements}

abbrev three_nodes : LinkedList
three_nodes = record {
  element_of = λ n. n * 10;
  next = λ n. if n == 4 then 8 else if n == 8 then 6 else 0;
  head_node = 4;
  iter_node = 4;
  freed = [];
}

abbrev nodes : List ℕ
nodes = 4 ∷ 8 ∷ 6 ∷ []

three_nodes-IsList : IsList three_nodes nodes
three_nodes-IsList = record {
  chain = (
    refl,
    (λ e. absurd (omega (arith, e))),
    (refl, (λ e. absurd (omega (arith, e))), (refl, (λ e. absurd (omega (arith, e))), refl)),
  );
  distinct = (
    ((λ e. absurd (omega (arith, e))), ((λ e. absurd (omega (arith, e))), tt)),
    (((λ e. absurd (omega (arith, e))), tt), (tt, tt)),
  );
}

linked_list-refines_example :
    let xs = elements three_nodes nodes in
    ((fresh e : ℕ)
      → fresh ≢ 0
      → NotIn fresh nodes
      → (l' : LinkedList) × (add_element 9 fresh (some three_nodes) e ≡ some (done (some l', true)))
        × Represents l' (xs ++ e ∷ []))
    × ((k : ℕ)
        → k < 2 ^ 32
        → (l' : LinkedList) × (pop_element 9 (some three_nodes) k
            ≡ some (some l', (take_at k xs).1))
          × Represents l' (take_at k xs).0)
    × ((e : ℕ)
        → (l' : LinkedList) × (remove_element 9 three_nodes e ≡ some (l', (take_first e xs).1))
          × Represents l' (take_first e xs).0)
    × (size 9 (some three_nodes) ≡ some (length xs))
    × (is_empty (some three_nodes) ≡ is_nil xs)
linked_list-refines_example =
    linked_list-refines 9 three_nodes nodes three_nodes-IsList (omega arith) (omega arith)

iter_list-elements_example : answers 4 three_nodes ≡ 40 ∷ 80 ∷ 60 ∷ 0 ∷ []
iter_list-elements_example = iter_list-elements three_nodes nodes three_nodes-IsList refl
