-- ===== src/FileOpen/Ramdisk.antt =====
-- Opening and reading a file of the initial ramdisk from the path on (kernel/fs/file.c,
-- kernel/fs/vfs.c, kernel/fs/initrd.c).
use mike_os.Base.{
  ℕ, suc, ◌+◌, ◌*◌, ◌≤◌, ◌<◌, ◌≡◌, ◌≢◌, ap, ◌∙◌, true, false, some, List, arith, ◌==◌, u32, done,
}
use mike_os.Memory.{Mem}
use mike_os.Strings.Texts.{IsText}
use mike_os.Initrd.{inode_size, load32, node_size}
use mike_os.LinkedList.{LinkedList}
use mike_os.File.{File, FsNode}
use mike_os.Vfs.{Vfs, vfs_open}
use mike_os.Vfs.Mount.{IsMounted}
use mike_os.Vfs.Open.{vfs_open-mounted}
use mike_os.FileOpen.{file_open, initrd_fs, initrd_open_at, modes_bits, open_with}
use mike_os.FileOpen.Layout.{
  Agrees, Apart, IsRamdisk, IsRamdisk-Agrees, initrd_open-finds, inode-inside, load32-Agrees,
  node_of, path_size,
}
use mike_os.FileOpen.Mode.{file_open-r, r_text, scratch, scratch-outside}

-- The buffers of `file_open` and the new node share no memory with the ramdisk and the path.
pub record IsSeparate (mode_buf literal fs_node start limit path : ℕ) (name : List ℕ) : Type 0 where
  pub literals : Apart mode_buf 3 literal (literal + 3)
  pub ramdisk_buf : Apart mode_buf 3 start limit
  pub ramdisk_literal : Apart (literal + 2) 1 start limit
  pub path_buf : Apart mode_buf 3 path (path + path_size name)
  pub path_literal : Apart (literal + 2) 1 path (path + path_size name)
  pub node : Apart fs_node node_size start limit

node_of-Agrees :
    (m m' : Mem) (start limit n fs_node k : ℕ)
    → Agrees start limit m m'
    → k < n
    → start + 4 + inode_size * n ≤ limit
    → node_of m' start n fs_node k ≡ node_of m start n fs_node k
node_of-Agrees m m' start limit n fs_node k same small fits =
    let inode = start + 4 + inode_size * k in
    let inside = inode-inside start limit n k small fits in
    let made : ℕ → ℕ → FsNode = λ size place. record {
      address = fs_node;
      size = size;
      fs_specific = u32 (start + 4 + n * inode_size + place);
    } in
    ap (λ size. made size (load32 m' inode))
      (load32-Agrees m m' start limit (inode + 4) same (omega arith) (omega arith))
    ∙ ap (made (load32 m (inode + 4)))
        (load32-Agrees m m' start limit inode same (omega arith) (omega arith))

module _ (b : ℕ) (possible_mode : ℕ → ℕ)
    (mode_buf fs_address start limit n path mode fs_node fresh k : ℕ) (answers : ℕ → ℕ)
    (stack_list : LinkedList) (kfree : FsNode → Mem → Mem) (names : ℕ → List ℕ) (name : List ℕ)
    (s : Vfs) (m : Mem) (lists : answers 0 ≢ 0) (allocates : fresh ≢ 0)
    (mounted : IsMounted s
      (initrd_fs (suc (suc b)) fs_address start (some fs_node) kfree)
      (initrd_open_at (suc (suc b)) start (some fs_node)))
    (ok : IsRamdisk (suc (suc b)) m start limit n path names name)
    (apart : IsSeparate mode_buf (possible_mode 0) fs_node start limit path name)
    (text : IsText m mode r_text) (literal_text : IsText m (possible_mode 0) r_text) (small : k < n)
    (same : names k ≡ name) (first : (j : ℕ) → j < k → names j ≢ name) where
  -- The ramdisk is mounted at "/", the path is '/' and the name of one of its files, the mode is "r",
  -- no answer of `kmalloc` is NULL, the strings are within the fuel, and the buffers share no
  -- memory with each other, the ramdisk and the path. Then `file_open` ends and answers the first file of
  -- the name, for reading and at offset 0, with the size and the place of its inode; the ramdisk
  -- and the mount points are as before.
  pub file_open-ramdisk :
      (m' : Mem) × (file_open
          (suc (suc b))
          possible_mode
          mode_buf
          (vfs_open (suc (suc b)) answers true stack_list)
          fresh
          (some path)
          mode
          s
          m
        ≡ some (
            done
              (s, m', some (record { mode = 1; offset = 0; inode = node_of m start n fs_node k }))))
      × Agrees start limit m m'
  unfolding open_with modes_bits initrd_fs
  file_open-ramdisk =
      let m1 = scratch mode_buf (possible_mode 0) mode m in
      let kept =
        scratch-outside mode_buf (possible_mode 0) mode m start limit apart.ramdisk_buf
          apart.ramdisk_literal in
      let path_kept =
        scratch-outside mode_buf (possible_mode 0) mode m path (path + path_size name)
          apart.path_buf apart.path_literal in
      let ok1 =
        IsRamdisk-Agrees (suc (suc b)) m m1 start limit n path names name kept path_kept ok in
      let (m2, opens, kept2) =
        initrd_open-finds (suc (suc b)) m1 fs_address start limit n path names name k fs_node ok1
          small same first apart.node in
      let is_null : (fresh == 0) ≡ false = ground (arith, allocates) in
      let found =
        vfs_open-mounted b answers stack_list (some path) s m1
          (initrd_fs (suc (suc b)) fs_address start (some fs_node) kfree)
          (initrd_open_at (suc (suc b)) start (some fs_node)) lists mounted in
      (
        m2,
        file_open-r b possible_mode mode_buf (vfs_open (suc (suc b)) answers true stack_list) fresh
              path mode s m text literal_text apart.literals
            ∙ rw (found, opens, is_null, open_with)
                (ap
                  (λ node.
                    some (done (s, m2, some (record { mode = 1; offset = 0; inode = node }))))
                  (node_of-Agrees m m1 start limit n fs_node k kept small ok.fits)),
        λ a above below. kept2 a above below ∙ kept a above below,
      )
