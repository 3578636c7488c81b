-- ===== src/FileOpen/Layout.antt =====
-- Opening a file of the initial ramdisk by its path (kernel/fs/initrd.c).
use mike_os.Base.{
  ℕ, ◌+◌, ◌*◌, ◌≤◌, ◌<◌, ◌≡◌, ◌≢◌, ◌⊎◌, inl, inr, refl, ap, ◌∙◌, true, Option, some, List, [], ◌∷◌,
  arith, length, ◌==◌,
}
use mike_os.Memory.{Mem, memcpy}
use mike_os.Memory.Copy.{memcpy_lem}
use mike_os.Strings.Texts.{IsText, strlen-length}
use mike_os.Strings.Compare.{AllBytes}
use mike_os.Initrd.{
  fs_offset, fs_specific_offset, initrd_open, inode_size, load32, name_offset, node_size,
  open_inode, place_of, size_offset, store32,
}
use mike_os.Initrd.Open.{IsTable, initrd_search_inode_table-first}
use mike_os.File.{FsNode}

-- From `lo` up to `hi` a memory is as it was.
abbrev pub Agrees : ℕ → ℕ → Mem → Mem → Type 0
Agrees lo hi m m' = (a : ℕ) → lo ≤ a → a < hi → m' a ≡ m a

-- `size` bytes from `p` on lie outside.
abbrev pub Apart : ℕ → ℕ → ℕ → ℕ → Type 0
Apart p size lo hi = (p + size ≤ lo) ⊎ (hi ≤ p)

-- A file's path is '/' and its name.
abbrev pub path_size : List ℕ → ℕ
path_size name = length name + 2

-- A ramdisk of n inodes from `start` up to `limit`, and a path with a name.
pub record IsRamdisk (fuel : ℕ) (m : Mem) (start limit n path : ℕ) (names : ℕ → List ℕ)
    (name : List ℕ) : Type 0 where
  pub count : load32 m start ≡ n
  pub table : IsTable fuel m (start + 4) n names
  pub fits : start + 4 + inode_size * n ≤ limit
  pub short : (i : ℕ) → i < n → length (names i) < 20
  pub slash : m path ≡ 47
  pub path_text : IsText m (path + 1) name
  pub path_bytes : AllBytes name

IsText-Agrees :
    (m m' : Mem) (p lo hi : ℕ) (xs : List ℕ)
    → lo ≤ p
    → p + length xs < hi
    → Agrees lo hi m m'
    → IsText m p xs
    → IsText m' p xs
IsText-Agrees m m' p lo hi [] above below same text = same p above (omega arith) ∙ text
IsText-Agrees m m' p lo hi (x ∷ xs) above below same (at, ne, rest) = (
  same p above (omega arith) ∙ at,
  ne,
  IsText-Agrees m m' (p + 1) lo hi xs (omega arith) (omega arith) same rest,
)

pub load32-Agrees :
    (m m' : Mem) (lo hi a : ℕ) → Agrees lo hi m m' → lo ≤ a → a + 4 ≤ hi → load32 m' a ≡ load32 m a
load32-Agrees m m' lo hi a same above below =
    rw
      (
        same a above (omega arith),
        same (a + 1) (omega arith) (omega arith),
        same (a + 2) (omega arith) (omega arith),
        same (a + 3) (omega arith) (omega arith),
      )
      refl

-- An inode of the table lies in the ramdisk.
pub inode-inside :
    (start limit n i : ℕ)
    → i < n
    → start + 4 + inode_size * n ≤ limit
    → start + 4 + inode_size * i + 28 ≤ limit
inode-inside start limit n i small fits = omega arith

pub IsRamdisk-Agrees :
    (fuel : ℕ) (m m' : Mem) (start limit n path : ℕ) (names : ℕ → List ℕ) (name : List ℕ)
    → Agrees start limit m m'
    → Agrees path (path + path_size name) m m'
    → IsRamdisk fuel m start limit n path names name
    → IsRamdisk fuel m' start limit n path names name
IsRamdisk-Agrees fuel m m' start limit n path names name same same_path ok =
    let fits = ok.fits in
    record {
      count = load32-Agrees m m' start limit start same (omega arith) (omega arith) ∙ ok.count;
      table = record {
        text = λ i small.
            let inside = inode-inside start limit n i small fits in
            let short = ok.short i small in
            IsText-Agrees m m' (start + 4 + inode_size * i + name_offset) start limit (names i)
              (omega arith) (omega arith) same (ok.table.text i small);
        bytes = ok.table.bytes;
        short = ok.table.short;
      };
      fits = fits;
      short = ok.short;
      slash = same_path path (omega arith) (omega arith) ∙ ok.slash;
      path_text =
          IsText-Agrees m m' (path + 1) path (path + path_size name) name (omega arith)
            (omega arith) same_path ok.path_text;
      path_bytes = ok.path_bytes;
    }

-- The node that is made for an inode.
abbrev pub node_of : Mem → ℕ → ℕ → ℕ → ℕ → FsNode
node_of m start n fs_node k = record {
  address = fs_node;
  size = load32 m (start + 4 + inode_size * k + 4);
  fs_specific = place_of start n (load32 m (start + 4 + inode_size * k));
}

store32-Agrees : (lo hi : ℕ) (m : Mem) (p v : ℕ) → Apart p 4 lo hi → Agrees lo hi m (store32 m p v)
store32-Agrees lo hi m p v apart a above below = ground arith

Agrees-trans :
    (lo hi : ℕ) (m m' m'' : Mem) → Agrees lo hi m m' → Agrees lo hi m' m'' → Agrees lo hi m m''
Agrees-trans lo hi m m' m'' same same' a above below = same' a above below ∙ same a above below

-- `initrd_open` finds the first file of the name and makes its node, outside the ramdisk.
pub initrd_open-finds :
    (fuel : ℕ) (m : Mem) (fs start limit n path : ℕ) (names : ℕ → List ℕ) (name : List ℕ)
    (k fs_node : ℕ)
    → IsRamdisk fuel m start limit n path names name
    → k < n
    → names k ≡ name
    → ((j : ℕ) → j < k → names j ≢ name)
    → Apart fs_node node_size start limit
    → (m' : Mem) × (initrd_open fuel m (some (fs, start)) (some path) (some fs_node)
        ≡ some (m', some (node_of m start n fs_node k)))
      × Agrees start limit m m'
unfolding initrd_open open_inode
initrd_open-finds fuel m fs start limit n path names name k fs_node ok small same first apart =
    let inode = start + 4 + inode_size * k in
    let inside = inode-inside start limit n k small ok.fits in
    let short = ok.short k small in
    let m1 = memcpy fs_node (inode + name_offset) (length (names k) + 1) m in
    let safe : (fs_node ≤ inode + name_offset)
        ⊎ (inode + name_offset + (length (names k) + 1) ≤ fs_node) =
      elim apart [ inl under ↦ inl (omega arith) | inr over ↦ inr (omega arith) ] in
    let kept1 : Agrees start limit m m1 = λ a above below.
      ground (arith, memcpy_lem fs_node (inode + name_offset) (length (names k) + 1) m safe a) in
    let place = place_of start n (load32 m inode) in
    let m2 = store32 m1 (fs_node + fs_specific_offset) place in
    let kept2 =
      Agrees-trans start limit m m1 m2 kept1
        (store32-Agrees start limit m1 (fs_node + fs_specific_offset) place (ground arith)) in
    let size = load32 m (inode + 4) in
    let m3 = store32 m2 (fs_node + size_offset) size in
    let kept3 =
      Agrees-trans start limit m m2 m3 kept2
        (store32-Agrees start limit m2 (fs_node + size_offset) size (ground arith)) in
    let m4 = store32 m3 (fs_node + fs_offset) fs in
    let found =
      (initrd_search_inode_table-first fuel m (start + 4) n (path + 1) names name ok.table
          ok.path_text ok.path_bytes).0
        k small same first in
    let measured =
      strlen-length fuel m (inode + name_offset) (names k) (ok.table.text k small)
        (ok.table.short k small) (omega arith) in
    let slash : (m path == 47) ≡ true = ground (arith, ok.slash) in
    let places : place_of start (load32 m1 start) (load32 m1 inode) ≡ place =
      ap (λ count. place_of start count (load32 m1 inode))
        (load32-Agrees m m1 start limit start kept1 (omega arith) (omega arith) ∙ ok.count)
      ∙ ap (place_of start n)
          (load32-Agrees m m1 start limit inode kept1 (omega arith) (omega arith)) in
    let sizes : load32 m2 (inode + 4) ≡ size =
      load32-Agrees m m2 start limit (inode + 4) kept2 (omega arith) (omega arith) in
    let made : ℕ → ℕ → Option (Mem × Option FsNode) = λ place size. some (
      store32
          (store32 (store32 m1 (fs_node + fs_specific_offset) place) (fs_node + size_offset) size)
          (fs_node + fs_offset) fs,
      some (record { address = fs_node; size = size; fs_specific = place }),
    ) in
    (
      m4,
      rw (slash, ok.count, found, measured, initrd_open, open_inode)
          (ap (λ q. made q (load32 (store32 m1 (fs_node + fs_specific_offset) q) (inode + 4)))
              places
            ∙ ap (made place) sizes),
      Agrees-trans start limit m m3 m4 kept3
          (store32-Agrees start limit m3 (fs_node + fs_offset) fs (ground arith)),
    )
