-- ===== src/Vfs.antt =====
-- kernel/fs/vfs.c: the mount points and `vfs_open`, over the file systems of include/fs/vfs.h. `vfs_read`
-- stands with the files. A mount point is its address, 0 for NULL; its path is in memory at that address.
-- A function pointer that is NULL is `none`. `bound` is the fuel for strings and lists.
pub mod Mount
pub mod Open
use mike_os.Base.{
  ℕ, zero, suc, ◌+◌, ◌-◌, ◌^◌, Bool, true, false, ◌&&◌, ◌||◌, not, Option, none, some,
  if◌then◌else◌, write, ErrorCode, success, failure, no_such_directory, invalid_argument, ◌==◌, u32,
  Outcome, done, undefined,
}
use mike_os.Memory.{Mem, memcpy}
use mike_os.Strings.{strcmp, strlen, strstr}
use mike_os.LinkedList.{
  LinkedList, add_element, free_list, initialize_list, is_empty, iter_list, pop_element,
}
use mike_os.Initrd.{is_zero}
use mike_os.File.{FsNode, FsRead}
use mike_os.Base.{ErrorCode, failure, invalid_argument, no_such_directory, success}

-- `file_system_t`, as far as the virtual file system uses it.
abbrev pub FsOpen : Type 0
FsOpen = Option ℕ → Option ℕ → Mem → Option (Mem × Option FsNode)

pub record FileSystem : Type 0 where
  pub address : ℕ
  pub read : Option FsRead
  pub write_to : Option FsRead
  pub open_path : Option FsOpen
  pub close : Option (FsNode → Mem → Mem)

-- `mount_points`, `root_mount_point`, the `children` of the root and the `mounted_fs` of every mount point.
pub record Vfs : Type 0 where
  pub mount_points : ℕ
  pub root_mount_point : ℕ
  pub children : LinkedList
  pub mounted_fs : ℕ → Option FileSystem

-- Code that loops, and may come to undefined behaviour.
abbrev pub Run : Type 0 → Type 0
Run A = Option (Outcome A)

abbrev pub and_then : {A B : Type 0} → Run A → (A → Run B) → Run B
and_then none next = none
and_then (some undefined) next = some undefined
and_then (some (done a)) next = next a

abbrev pub of_option : {A : Type 0} → Option A → Run A
of_option none = none
of_option (some a) = some (done a)

-- `&list`, after `initialize_list`.
unfoldable pub empty_list : LinkedList → LinkedList
unfolding initialize_list
empty_list l = elim (initialize_list (some l)).0 [ none ↦ l | some l' ↦ l' ]

abbrev fresh_list : Option LinkedList → Option LinkedList
fresh_list none = none
fresh_list (some l) = some (empty_list l)

-- `initialize_list` leaves its value undefined; `returned` is what the caller finds in its place.
-- `fresh` is what `kmalloc` answers and `slash` the address of the text "/"; `none` is `kernel_panic`.
unfoldable pub vfs_init : Bool → ℕ → ℕ → Vfs → Mem → Option (Vfs × Mem)
unfolding empty_list
vfs_init returned fresh slash s m =
    if fresh == 0 || not returned
    then none
    else some (
      record {
        mount_points = fresh;
        root_mount_point = fresh;
        children = empty_list s.children;
        mounted_fs = write s.mounted_fs fresh none;
      },
      memcpy fresh slash 2 m,
    )

abbrev pub is_set : {A : Type 0} → Option A → Bool
is_set none = false
is_set (some a) = true

-- The value is `undefined` where the function ends without a `return`.
unfoldable pub vfs_mount :
    ℕ → ℕ → Option ℕ → Option FileSystem → Vfs → Mem → Option (Vfs × Outcome ErrorCode)
vfs_mount bound slash none fs s m = some (s, done invalid_argument)
vfs_mount bound slash (some path) none s m = some (s, done invalid_argument)
vfs_mount bound slash (some path) (some fs) s m = elim (strcmp bound m path slash) [
  | none ↦ none
  | some r ↦ some (
      if is_zero r
      then if is_set fs.read && is_set fs.open_path && is_set fs.close
        then (
          record s { mounted_fs = write s.mounted_fs s.root_mount_point (some fs) },
          done success,
        )
        else (s, done failure)
      else if is_set (s.mounted_fs s.root_mount_point)
      then (s, undefined)
      else (s, done no_such_directory))
]

unfoldable pub path_depth_loop : ℕ → Mem → ℕ → ℕ → Option ℕ
path_depth_loop zero m path counter = none
path_depth_loop (suc fuel) m path counter =
    let rest =
      path_depth_loop fuel m (path + 1) (if m path == 47 then u32 (counter + 1) else counter) in
    if m path == 0 then some counter else rest

unfoldable pub path_depth : ℕ → Mem → Option ℕ → Option ℕ
unfolding path_depth_loop
path_depth bound m none = some (2 ^ 32 - 1)
path_depth bound m (some path) = path_depth_loop bound m path 0

-- `fresh` is what `kmalloc` answers, 0 for NULL.
unfoldable pub alloc_mount_point :
    ℕ → ℕ → ℕ → Option FileSystem → Vfs → Mem → Option (Vfs × Mem × ℕ)
alloc_mount_point bound fresh path fs s m =
    if fresh == 0 then some (s, m, 0) else elim (strlen bound m path) [
      | none ↦ none
      | some n ↦ some (
        record s { mounted_fs = write s.mounted_fs fresh fs },
        memcpy fresh path (n + 1) m,
        fresh,
      )
    ]

-- What the walk changes: the iterator of the children, its list of nodes, and how many of the
-- answers of `kmalloc` are taken.
pub record Walk : Type 0 where
  pub children_left : LinkedList
  pub tree_nodes : Option LinkedList
  pub taken : ℕ

module _ (bound : ℕ) (answers : ℕ → ℕ) (mount_points : ℕ) (path : Option ℕ) (m : Mem) where
  -- `add_element(&tree_nodes, mount_points)`, and its value.
  unfoldable pub add_root : Walk → Run (Walk × Bool)
  unfolding add_element
  add_root w = elim (add_element bound (answers w.taken) w.tree_nodes mount_points) [
    | none ↦ none
    | some undefined ↦ some undefined
    | some (done r) ↦ some (done (record w { tree_nodes = r.0; taken = w.taken + 1 }, r.1))
  ]

  -- The loop over the children; false is a jump to `clean_up`.
  unfoldable pub children_loop : ℕ → Walk → Run (Walk × Bool)
  unfolding iter_list add_root
  children_loop zero w = none
  children_loop (suc fuel) w =
      let child = iter_list w.children_left in
      let moved = record w { children_left = child.0 } in
      elim (child.1 == 0) [
        | true ↦ some (done (moved, true))
        | false ↦ elim (strstr bound m path (some child.1)) [
          | none ↦ none
          | some none ↦ children_loop fuel moved
          | some (some specific_path) ↦ elim (strlen bound m child.1) [
            | none ↦ none
            | some n ↦ and_then (add_root moved) λ added. elim added.1 [
              | true ↦ children_loop fuel added.0
              | false ↦ some (done added)
            ]
          ]
        ]
      ]

  -- The walk from `do` on; the answer is `current`.
  unfoldable pub tree_loop : ℕ → Walk → Run (Walk × ℕ)
  unfolding children_loop pop_element is_empty
  tree_loop zero w = none
  tree_loop (suc fuel) w = elim (pop_element bound w.tree_nodes 0) [
    | none ↦ none
    | some popped ↦
        let left = record w { tree_nodes = popped.0 } in
        and_then (if popped.1 == 0 then some (done (left, true)) else children_loop bound left)
          λ added. elim (added.1 && not (is_empty added.0.tree_nodes)) [
            | true ↦ tree_loop fuel added.0
            | false ↦ some (done (added.0, popped.1))
          ]
  ]

  -- `vfs_open` up to `clean_up`.
  unfoldable pub find_mount : Bool → Walk → Run (Walk × ℕ)
  unfolding tree_loop add_root empty_list
  find_mount returned w =
      let fresh = record w { tree_nodes = fresh_list w.tree_nodes } in
      elim returned [
        | false ↦ some (done (fresh, 0))
        | true ↦ and_then (add_root fresh) λ added. elim added.1 [
          | true ↦ tree_loop bound added.0
          | false ↦ some (done (added.0, 0))
        ]
      ]

-- `current->mounted_fs->open(current->mounted_fs, path)`, or NULL.
unfoldable pub open_at : (ℕ → Option FileSystem) → ℕ → Option ℕ → Mem → Run (Mem × Option FsNode)
open_at mounted_fs current path m =
    if current == 0 then some (done (m, none)) else elim (mounted_fs current) [
      | none ↦ some undefined
      | some fs ↦ elim fs.open_path [
        | none ↦ some undefined
        | some open_path ↦ of_option (open_path (some fs.address) path m)
      ]
    ]

-- `returned` is what is found in place of the value of `initialize_list`, `stack_list` what the stack holds
-- where the list of nodes is, and `answers` are those of `kmalloc`.
unfoldable pub vfs_open :
    ℕ → (ℕ → ℕ) → Bool → LinkedList → Option ℕ → Vfs → Mem → Run (Vfs × Mem × Option FsNode)
unfolding find_mount open_at free_list
vfs_open bound answers returned stack_list path s m =
    let start : Walk = record {
      children_left = s.children;
      tree_nodes = some stack_list;
      taken = 0;
    } in
    and_then (find_mount bound answers s.mount_points path m returned start) λ found.
      elim found.0.tree_nodes [
        | none ↦ some undefined
        | some tree_nodes ↦ elim (free_list bound tree_nodes) [
          | none ↦ none
          | some freed ↦
              and_then (open_at s.mounted_fs found.1 path m)
                λ node. some (done (record s { children = found.0.children_left }, node.0, node.1))
        ]
      ]
