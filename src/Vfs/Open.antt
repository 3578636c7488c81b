-- ===== src/Vfs/Open.antt =====
-- Opening a path once a file system is mounted at "/" (kernel/fs/vfs.c).
use mike_os.Base.{
  ℕ, suc, ◌≡◌, ◌≢◌, refl, sym, ap, ◌∙◌, true, false, Option, some, ◌∷◌, arith, write, ◌==◌, done,
}
use mike_os.Memory.{Mem}
use mike_os.LinkedList.{
  LinkedList, add_element, free_list, free_list_loop, get_link, initialize_list, is_empty,
  iter_list, last_link, link_node, pop_element, pop_loop, set_link, unlink_node,
}
use mike_os.File.{FsNode}
use mike_os.Vfs.{
  FileSystem, FsOpen, Run, Vfs, Walk, add_root, and_then, children_loop, empty_list, find_mount,
  of_option, open_at, tree_loop, vfs_open,
}
use mike_os.Vfs.Mount.{IsMounted}

-- `add_element` and `pop_element` on a list that is empty.
module _ (b fresh element : ℕ) (l : LinkedList) (allocates : fresh ≢ 0) where
  abbrev one_element : LinkedList
  one_element = record l {
    head_node = fresh;
    iter_node = fresh;
    next = write l.next fresh 0;
    element_of = write l.element_of fresh element;
  }

  add_element-one :
      l.head_node ≡ 0
      → add_element (suc b) fresh (some l) element ≡ some (done (some one_element, true))
  unfolding add_element last_link link_node set_link get_link
  add_element-one empty =
      let is_null : (fresh == 0) ≡ false = ground arith in rw (empty, is_null) refl

  abbrev no_element : LinkedList
  no_element = record one_element { head_node = 0; iter_node = 0; freed = fresh ∷ l.freed }

  pop_element-one : pop_element (suc (suc b)) (some one_element) 0 ≡ some (some no_element, element)
  unfolding pop_element pop_loop unlink_node set_link get_link
  pop_element-one =
      let is_null : (fresh == 0) ≡ false = ground arith in
      let same : (fresh == fresh) ≡ true = ground arith in rw (is_null, same) refl

-- A list that is empty and at its end stays so when it is iterated.
rewound :
    (l : LinkedList) → l.head_node ≡ 0 → l.iter_node ≡ 0 → record l { iter_node = l.head_node } ≡ l
rewound l no_child iterator = ap (λ i. record l { iter_node = i }) (no_child ∙ sym iterator)

iter_list-ended : (l : LinkedList) → l.head_node ≡ 0 → l.iter_node ≡ 0 → iter_list l ≡ (l, 0)
unfolding iter_list
iter_list-ended l no_child iterator =
    let is_null : (l.iter_node == 0) ≡ true = ground (arith, iterator) in
    rw (is_null) (ap (λ r. (r, 0)) (rewound l no_child iterator))

module _ (b : ℕ) (answers : ℕ → ℕ) (mount_points : ℕ) (path : Option ℕ) (m : Mem)
    (allocates : answers 0 ≢ 0) where
  add_root-one :
      (fuel : ℕ) (children l : LinkedList)
      → l.head_node ≡ 0
      → add_root
          (suc fuel)
          answers
          mount_points
          path
          m
          (record { children_left = children; tree_nodes = some l; taken = 0 })
        ≡ some (
            done (
              record {
                children_left = children;
                tree_nodes = some (one_element b (answers 0) mount_points l allocates);
                taken = 1;
              },
              true,
            ))
  unfolding add_root
  add_root-one fuel children l empty =
      rw (add_element-one fuel (answers 0) mount_points l allocates empty, add_root) refl

  children_loop-none :
      (bound fuel : ℕ) (w : Walk)
      → w.children_left.head_node ≡ 0
      → w.children_left.iter_node ≡ 0
      → children_loop bound answers mount_points path m (suc fuel) w ≡ some (done (w, true))
  unfolding children_loop
  children_loop-none bound fuel w no_child iterator =
      let ended = iter_list-ended w.children_left no_child iterator in
      rw (ended, children_loop)
        (ap (λ (r : LinkedList × ℕ). some (done (record w { children_left = r.0 }, true))) ended)

  -- The walk ends at the root, since it has no children.
  tree_loop-root :
      (fuel : ℕ) (children l : LinkedList)
      → mount_points ≢ 0
      → children.head_node ≡ 0
      → children.iter_node ≡ 0
      → tree_loop (suc (suc b)) answers mount_points path m (suc fuel) (record {
        children_left = children;
        tree_nodes = some (one_element b (answers 0) mount_points l allocates);
        taken = 1;
      })
        ≡ some (
            done (
              record {
                children_left = children;
                tree_nodes = some (no_element b (answers 0) mount_points l allocates);
                taken = 1;
              },
              mount_points,
            ))
  unfolding tree_loop is_empty
  tree_loop-root fuel children l root no_child iterator =
      let root_set : (mount_points == 0) ≡ false = ground (arith, root) in
      let left : Walk = record {
        children_left = children;
        tree_nodes = some (no_element b (answers 0) mount_points l allocates);
        taken = 1;
      } in
      rw
        (
          pop_element-one b (answers 0) mount_points l allocates,
          root_set,
          children_loop-none (suc (suc b)) (suc b) left no_child iterator,
          tree_loop,
        )
        refl

  find_mount-root :
      (children l : LinkedList)
      → mount_points ≢ 0
      → children.head_node ≡ 0
      → children.iter_node ≡ 0
      → find_mount
          (suc (suc b))
          answers
          mount_points
          path
          m
          true
          (record { children_left = children; tree_nodes = some l; taken = 0 })
        ≡ some (
            done (
              record {
                children_left = children;
                tree_nodes = some (
                    no_element b
                      (answers 0)
                      mount_points
                      (record l { head_node = 0; iter_node = 0 })
                      allocates);
                taken = 1;
              },
              mount_points,
            ))
  unfolding find_mount empty_list initialize_list
  find_mount-root children l root no_child iterator =
      let emptied : LinkedList = record l { head_node = 0; iter_node = 0 } in
      ap
        (λ r. and_then r λ added. elim added.1 [
          | true ↦ tree_loop (suc (suc b)) answers mount_points path m (suc (suc b)) added.0
          | false ↦ some (done (added.0, 0))
        ])
        (add_root-one (suc b) children emptied refl)
      ∙ tree_loop-root (suc b) children emptied root no_child iterator

-- What `vfs_open` is to answer: what the file system that is mounted at "/" answers for the whole path.
abbrev pub opened_by : Vfs → FileSystem → FsOpen → Option ℕ → Mem → Run (Vfs × Mem × Option FsNode)
opened_by s fs open_path path m =
    and_then (of_option (open_path (some fs.address) path m))
      λ node. some (done (s, node.0, node.1))

-- Once a file system is mounted at "/", with two units of fuel, and where `kmalloc` does not answer NULL and
-- the value that `initialize_list` leaves is not 0: the walk over the mount points ends, `vfs_open` does and
-- answers what the `open` of this file system does and answers for the whole path, and the mount points are
-- as before.
pub vfs_open-mounted :
    (b : ℕ) (answers : ℕ → ℕ) (stack_list : LinkedList) (path : Option ℕ) (s : Vfs) (m : Mem)
    (fs : FileSystem) (open_path : FsOpen)
    → answers 0 ≢ 0
    → IsMounted s fs open_path
    → vfs_open (suc (suc b)) answers true stack_list path s m ≡ opened_by s fs open_path path m
unfolding vfs_open open_at free_list free_list_loop
vfs_open-mounted b answers stack_list path s m fs open_path allocates ok =
    let root_set : (s.mount_points == 0) ≡ false = ground (arith, ok.root) in
    rw
      (
        find_mount-root b answers s.mount_points path m allocates s.children stack_list ok.root
            ok.no_child ok.iterator,
        root_set,
        ok.mounted,
        ok.opens,
        vfs_open,
        open_at,
      )
      refl
