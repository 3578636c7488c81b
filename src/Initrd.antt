-- ===== src/Initrd.antt =====
-- kernel/fs/initrd.c: the initial ramdisk. It stands in memory from `partition_begin_offset`: a
-- 32-bit count, a table of packed inodes (offset, size, 20 bytes of name) and the files' bytes. The
-- fuel bounds the strings that are read. `kmalloc`'s answer is an argument.
pub mod Read
pub mod Open
use mike_os.Base.{
  ℕ, zero, suc, ◌+◌, ◌*◌, ◌/◌, ◌%◌, ◌^◌, Bool, false, ◌||◌, Option, none, some, if◌then◌else◌,
  length, write, ltb, ◌==◌, u32,
}
use mike_os.Base.Int.{ℤ, pos, negsuc}
use mike_os.Memory.{Mem, memcpy}
use mike_os.Strings.{strcmp, strlen}
use mike_os.File.{FsNode}

-- A little-endian `uint32_t` in memory.
abbrev pub load32 : Mem → ℕ → ℕ
load32 m a = m a + m (a + 1) * 2 ^ 8 + m (a + 2) * 2 ^ 16 + m (a + 3) * 2 ^ 24

-- `sizeof(initrd_inode_t)`, and the offset of `name` in it.
abbrev pub inode_size : ℕ
inode_size = 28

abbrev pub name_offset : ℕ
name_offset = 8

-- `strcmp(...) == 0`.
abbrev pub is_zero : ℤ → Bool
is_zero (pos n) = n == 0
is_zero (negsuc n) = false

-- From inode i over the n inodes left: the address of the first with the name.
unfoldable pub inodes_loop : ℕ → Mem → ℕ → ℕ → ℕ → ℕ → Option (Option ℕ)
inodes_loop fuel m table name i zero = some none
inodes_loop fuel m table name i (suc n) =
    let rest = inodes_loop fuel m table name (i + 1) n in
    let inode = table + inode_size * i in
    elim (strcmp fuel m (inode + name_offset) name) [
      | none ↦ none
      | some r ↦ if is_zero r then some (some inode) else rest
    ]

unfoldable pub initrd_search_inode_table : ℕ → Mem → ℕ → ℕ → ℕ → Option (Option ℕ)
initrd_search_inode_table fuel m inode_table_start number_of_inodes name =
    inodes_loop fuel m inode_table_start name 0 number_of_inodes

-- A little-endian `uint32_t` written to memory.
abbrev pub store32 : Mem → ℕ → ℕ → Mem
store32 m a v =
    write
      (write (write (write m a (v % 2 ^ 8)) (a + 1) (v / 2 ^ 8 % 2 ^ 8)) (a + 2)
        (v / 2 ^ 16 % 2 ^ 8))
      (a + 3) (v / 2 ^ 24 % 2 ^ 8)

-- `sizeof(fs_node_t)`, and the offsets of `size`, `fs_specific` and `fs` in it.
abbrev pub node_size : ℕ
node_size = 164

abbrev pub size_offset : ℕ
size_offset = 148

abbrev pub fs_specific_offset : ℕ
fs_specific_offset = 152

abbrev pub fs_offset : ℕ
fs_offset = 156

-- The address of a file's bytes.
abbrev pub place_of : ℕ → ℕ → ℕ → ℕ
place_of start number_of_inodes offset_from_start =
    u32 (start + 4 + number_of_inodes * inode_size + offset_from_start)

-- What `initrd_open` does with the inode found: the fields of the new node are written one after the other.
unfoldable pub open_inode : ℕ → Mem → ℕ → ℕ → Option ℕ → ℕ → Option (Mem × Option FsNode)
open_inode fuel m fs start none inode = some (m, none)
open_inode fuel m fs start (some fs_node) inode = elim (strlen fuel m (inode + name_offset)) [
  | none ↦ none
  | some n ↦
      let m1 = memcpy fs_node (inode + name_offset) (n + 1) m in
      let place = place_of start (load32 m1 start) (load32 m1 inode) in
      let m2 = store32 m1 (fs_node + fs_specific_offset) place in
      let size = load32 m2 (inode + 4) in
      let m3 = store32 m2 (fs_node + size_offset) size in
      some (
        store32 m3 (fs_node + fs_offset) fs,
        some (record { address = fs_node; size = size; fs_specific = place }),
      )
]

-- `fs` is the address of the file system and the address of its ramdisk.
unfoldable pub initrd_open :
    ℕ → Mem → Option (ℕ × ℕ) → Option ℕ → Option ℕ → Option (Mem × Option FsNode)
unfolding open_inode initrd_search_inode_table
initrd_open fuel m none path fs_node = some (m, none)
initrd_open fuel m (some fs) none fs_node = some (m, none)
initrd_open fuel m (some (fs, start)) (some path) fs_node =
    let name = if m path == 47 then path + 1 else path in
    elim (initrd_search_inode_table fuel m (start + 4) (load32 m start) name) [
      | none ↦ none
      | some none ↦ some (m, none)
      | some (some inode) ↦ open_inode fuel m fs start fs_node inode
    ]

unfoldable pub initrd_read : Option FsNode → ℕ → ℕ → Option ℕ → Mem → Mem × ℕ
initrd_read none offset length buffer m = (m, 0)
initrd_read (some node) offset length none m = (m, 0)
initrd_read (some node) offset length (some buffer) m =
    if ltb offset 0 || (length == 0)
    then (m, 0)
    else if ltb node.size (u32 (offset + length))
    then (m, 0)
    else (memcpy buffer (node.fs_specific + offset) length m, length)

-- `initrd_close`, over the `kfree` of the node.
unfoldable pub initrd_close : {S : Type 0} → (kfree : FsNode → S → S) → Option FsNode → S → S
initrd_close kfree none s = s
initrd_close kfree (some node) s = kfree node s
