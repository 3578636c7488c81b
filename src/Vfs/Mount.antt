-- ===== src/Vfs/Mount.antt =====
-- Mounting the first file system (kernel/fs/vfs.c).
use mike_os.Base.{
  ℕ, ◌<◌, ◌≡◌, ◌≢◌, inl, inr, refl, ap, ◌∙◌, true, false, ◌&&◌, Option, none, some, List, [], ◌∷◌,
  arith, length, write, ErrorCode, success, failure, no_such_directory, Bool-cases, ◌==◌, Outcome,
  done,
}
use mike_os.Base.Int.{pos}
use mike_os.Memory.{Mem, memcpy}
use mike_os.Strings.{strcmp}
use mike_os.Strings.Texts.{IsText}
use mike_os.Strings.Compare.{AllBytes, compare_texts, strcmp-compare_texts, strcmp-zero_iff}
use mike_os.LinkedList.{LinkedList, initialize_list}
use mike_os.Initrd.{is_zero}
use mike_os.Initrd.Open.{is_zero-pos}
use mike_os.Vfs.{FileSystem, FsOpen, Vfs, Walk, empty_list, is_set, vfs_init, vfs_mount}

-- After `vfs_init` and the mounting of `fs` at "/".
pub record IsMounted (s : Vfs) (fs : FileSystem) (open_path : FsOpen) : Type 0 where
  pub root : s.mount_points ≢ 0
  pub same_root : s.root_mount_point ≡ s.mount_points
  pub no_child : s.children.head_node ≡ 0
  pub iterator : s.children.iter_node ≡ 0
  pub mounted : s.mounted_fs s.mount_points ≡ some fs
  pub opens : fs.open_path ≡ some open_path

-- Nothing is mounted below the root.
abbrev before_walk : Vfs → LinkedList → Walk
before_walk s stack_list = record {
  children_left = s.children;
  tree_nodes = some stack_list;
  taken = 0;
}

-- The text "/".
abbrev pub root_path : List ℕ
root_path = 47 ∷ []

root_path-bytes : AllBytes root_path
root_path-bytes = (omega arith, tt)

-- The outcomes of the first `vfs_mount`.
abbrev pub MountsFirst : Vfs → FileSystem → List ℕ → Option (Vfs × Outcome ErrorCode) → Type 0
MountsFirst s fs text result =
    ((open_path : FsOpen)
      → text ≡ root_path
      → is_set fs.read ≡ true
      → fs.open_path ≡ some open_path
      → is_set fs.close ≡ true
      → (t : Vfs) × (result ≡ some (t, done success)) × IsMounted t fs open_path)
    × (text ≡ root_path
        → (is_set fs.read && is_set fs.open_path && is_set fs.close) ≡ false
        → result ≡ some (s, done failure))
    × (text ≢ root_path → result ≡ some (s, done no_such_directory))

-- After `vfs_init`, which succeeds where `kmalloc` does not answer NULL and the value that `initialize_list` leaves is
-- not 0, and at a path within the fuel: a file system with `read`, `open` and `close` is mounted at
-- "/", and `vfs_open` goes to it; one that lacks any of the three is refused; any other path is refused, since
-- nothing is mounted at "/".
pub vfs_init-vfs_mount :
    (fuel fresh slash path : ℕ) (text : List ℕ) (s0 : Vfs) (m0 m : Mem) (fs : FileSystem)
    → fresh ≢ 0
    → AllBytes text
    → IsText m path text
    → IsText m slash root_path
    → length text < fuel
    → (s : Vfs) × (m1 : Mem) × (vfs_init true fresh slash s0 m0 ≡ some (s, m1))
      × MountsFirst s fs text (vfs_mount fuel slash (some path) (some fs) s m)
unfolding vfs_init vfs_mount empty_list initialize_list
vfs_init-vfs_mount fuel fresh slash path text s0 m0 m fs allocates bytes path_text slash_text
      enough =
    let is_null : (fresh == 0) ≡ false = ground (arith, allocates) in
    let here : (fresh == fresh) ≡ true = ground arith in
    let compared =
      strcmp-compare_texts fuel m path slash text root_path path_text slash_text enough in
    let zero_iff =
      strcmp-zero_iff fuel m path slash text root_path bytes root_path-bytes path_text slash_text
        enough in
    let equal : text ≡ root_path → strcmp fuel m path slash ≡ some (pos 0) = zero_iff.1 in
    let differs : text ≢ root_path → is_zero (compare_texts text root_path) ≡ false = λ other.
      elim (Bool-cases (is_zero (compare_texts text root_path))) [
        | inl yes' ↦ absurd (other (zero_iff.0 (compared ∙ ap some (is_zero-pos _ yes'))))
        | inr no' ↦ no'
      ] in
    let s : Vfs = record {
      mount_points = fresh;
      root_mount_point = fresh;
      children = record s0.children { head_node = 0; iter_node = 0 };
      mounted_fs = write s0.mounted_fs fresh none;
    } in
    (
      s,
      memcpy fresh slash 2 m0,
      rw is_null refl,
      (
        λ open_path e reads opens closes.
            let set' : is_set fs.open_path ≡ true = ap is_set opens in
            (
              record s { mounted_fs = write s.mounted_fs fresh (some fs) },
              rw (equal e, reads, set', closes, vfs_mount) refl,
              record {
                root = allocates;
                same_root = refl;
                no_child = refl;
                iterator = refl;
                mounted = rw here refl;
                opens = opens;
              },
            ),
        λ e lacks. rw (equal e, lacks, vfs_mount) refl,
        λ e. rw (compared, differs e, here, vfs_mount) refl,
      ),
    )
