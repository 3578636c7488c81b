-- ===== src/LinkedList.antt =====
-- kernel/data_structures/list.c: a list of nodes on the heap, with its iterator. A pointer to a node is
-- its address, 0 for NULL; a `list_t*` that is NULL is `none`. What `kmalloc` answers is an argument,
-- and what is given to `kfree` is recorded. The fuel bounds the nodes that are walked.
pub mod Slots
pub mod Append
pub mod Remove
pub mod Refine
pub mod Iterate
use mike_os.Base.{
  ℕ, zero, suc, ◌+◌, ◌^◌, Bool, true, false, Option, none, some, List, ◌∷◌, if◌then◌else◌, write,
  leb, ◌==◌, sub32, u32, Outcome, done, undefined,
}
use mike_os.Base.Chain.{Slot, head, next_of}

-- `node_t` in memory, `list_t`, and the nodes given back, the latest first.
pub record LinkedList : Type 0 where
  pub element_of : ℕ → ℕ
  pub next : ℕ → ℕ
  pub head_node : ℕ
  pub iter_node : ℕ
  pub freed : List ℕ

-- The new list, and the value returned: `undefined` where the function ends without a `return`.
unfoldable pub initialize_list : Option LinkedList → Option LinkedList × Outcome Bool
initialize_list none = (none, done false)
initialize_list (some l) = (some (record l { head_node = 0; iter_node = 0 }), undefined)

unfoldable pub get_link : Slot → LinkedList → ℕ
get_link head l = l.head_node
get_link (next_of p) l = l.next p

unfoldable pub set_link : Slot → ℕ → LinkedList → LinkedList
set_link head v l = record l { head_node = v }
set_link (next_of p) v l = record l { next = write l.next p v }

abbrev pub is_head : Slot → Bool
is_head head = true
is_head (next_of p) = false

-- `while(*node != NULL) node = &((*node)->next);`
unfoldable pub last_link : ℕ → Slot → LinkedList → Option Slot
unfolding get_link
last_link zero slot l = none
last_link (suc fuel) slot l =
    let rest = last_link fuel (next_of (get_link slot l)) l in
    if get_link slot l == 0 then some slot else rest

-- The new node is stored behind the last link and filled in.
unfoldable pub link_node : ℕ → ℕ → Slot → LinkedList → LinkedList
unfolding set_link
link_node fresh element slot l =
    let l1 = set_link slot fresh l in
    let l2 = record l1 {
      next = write l1.next fresh 0;
      element_of = write l1.element_of fresh element;
    } in
    if is_head slot then record l2 { iter_node = fresh } else l2

-- `fresh` is what `kmalloc` answers; its NULL is written through unchecked.
unfoldable pub add_element :
    ℕ → ℕ → Option LinkedList → ℕ → Option (Outcome (Option LinkedList × Bool))
unfolding last_link link_node
add_element fuel fresh none element = some (done (none, false))
add_element fuel fresh (some l) element = elim (last_link fuel head l) [
  | none ↦ none
  | some slot ↦
      some (if fresh == 0 then undefined else done (some (link_node fresh element slot l), true))
]

-- What `pop_element` does at the node it comes to: it is unlinked and freed.
unfoldable pub unlink_node : Slot → ℕ → LinkedList → LinkedList × ℕ
unfolding set_link
unlink_node slot node l =
    let l1 = set_link slot (l.next node) l in
    (record l1 { freed = node ∷ l1.freed; iter_node = l1.head_node }, l1.element_of node)

-- The loop of `pop_element`, at the link `slot`, on fuel; 0 is the NULL of the answer.
unfoldable pub pop_loop : ℕ → Slot → ℕ → LinkedList → Option (LinkedList × ℕ)
unfolding get_link unlink_node
pop_loop zero slot element_index l = none
pop_loop (suc fuel) slot element_index l =
    let node = get_link slot l in
    let rest = pop_loop fuel (next_of node) (sub32 element_index 1) l in
    if node == 0
    then some (l, 0)
    else if element_index == 0
    then some (unlink_node slot node l)
    else rest

-- An index is the 32-bit pattern of the `int32_t`.
unfoldable pub pop_element : ℕ → Option LinkedList → ℕ → Option (Option LinkedList × ℕ)
unfolding pop_loop
pop_element fuel none element_index = some (none, 0)
pop_element fuel (some l) element_index =
    if leb (2 ^ 31) element_index
    then some (some l, 0)
    else elim (pop_loop fuel head element_index l) [ none ↦ none | some r ↦ some (some r.0, r.1) ]

-- The loop of `remove_element`, at the link `slot`, on fuel.
unfoldable pub remove_loop : ℕ → Slot → ℕ → LinkedList → Option (LinkedList × Bool)
unfolding get_link set_link
remove_loop zero slot element l = none
remove_loop (suc fuel) slot element l =
    let node = get_link slot l in
    let rest = remove_loop fuel (next_of node) element l in
    if node == 0
    then some (l, false)
    else if l.element_of node == element
    then some (set_link slot (l.next node) l, true)
    else rest

unfoldable pub remove_element : ℕ → LinkedList → ℕ → Option (LinkedList × Bool)
unfolding remove_loop
remove_element fuel l element = remove_loop fuel head element l

-- The loop of `size`, at `node`, on fuel.
unfoldable pub size_loop : ℕ → ℕ → LinkedList → ℕ → Option ℕ
size_loop zero node l counter = none
size_loop (suc fuel) node l counter =
    let rest = size_loop fuel (l.next node) l (u32 (counter + 1)) in
    if node == 0 then some counter else rest

unfoldable pub size : ℕ → Option LinkedList → Option ℕ
unfolding size_loop
size fuel none = some 0
size fuel (some l) = size_loop fuel l.head_node l 0

unfoldable pub is_empty : Option LinkedList → Bool
is_empty none = false
is_empty (some l) = l.head_node == 0

-- The element, 0 for NULL.
unfoldable pub iter_list : LinkedList → LinkedList × ℕ
iter_list l =
    if l.iter_node == 0
    then (record l { iter_node = l.head_node }, 0)
    else (record l { iter_node = l.next l.iter_node }, l.element_of l.iter_node)

-- The loop of `free_list`, at `node`, on fuel. The link is read before the node is freed.
unfoldable pub free_list_loop : ℕ → ℕ → LinkedList → Option LinkedList
free_list_loop zero node l = none
free_list_loop (suc fuel) node l =
    let rest = free_list_loop fuel (l.next node) (record l { freed = node ∷ l.freed }) in
    if node == 0 then some l else rest

-- `free_list` ends without a `return`.
unfoldable pub free_list : ℕ → LinkedList → Option LinkedList
unfolding free_list_loop
free_list fuel l = free_list_loop fuel l.head_node l
