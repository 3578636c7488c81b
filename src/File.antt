-- ===== src/File.antt =====
-- kernel/fs/file.c and include/fs/vfs.h: reading from an open file and moving its offset, over the
-- `read` function of the file system that the node belongs to (kernel/fs/vfs.c: vfs_read). NULL
-- pointers are `none`, and a `jmp` is the 32-bit pattern of the `int32_t`.
pub mod Seek
use mike_os.Base.{
  ℕ, ◌+◌, ◌-◌, ◌^◌, ◌%◌, u32, sub32, ltb, leb, ◌==◌, ◌||◌, Bool, if◌then◌else◌, Option, none, some,
  ErrorCode, success, invalid_argument,
}
use mike_os.Memory.{Mem}

-- The fields of `fs_node_t` that the code reads; `address` is where the node stands, with its name.
pub record FsNode : Type 0 where
  pub address : ℕ
  pub size : ℕ
  pub fs_specific : ℕ

-- `file_t`.
pub record File : Type 0 where
  pub mode : ℕ
  pub offset : ℕ
  pub inode : FsNode

-- `seek_type_t`, and the numbers that are none of its constants.
pub data SeekType : Type 0 where
  seek_set seek_cur seek_end : SeekType
  other_seek : ℕ → SeekType

-- `node->fs->read(node, offset, length, buffer)`.
abbrev pub FsRead : Type 0
FsRead = Option FsNode → ℕ → ℕ → Option ℕ → Mem → Mem × ℕ

unfoldable pub vfs_read : FsRead → FsRead
vfs_read read none offset length buffer m = (m, 0)
vfs_read read (some node) offset length buffer m = read (some node) offset length buffer m

-- `int32_t jmp < 0`.
abbrev pub is_negative : ℕ → Bool
is_negative jmp = leb (2 ^ 31) jmp

unfoldable pub file_read : FsRead → Option File → Option ℕ → ℕ → Mem → Mem × Option File × ℕ
unfolding vfs_read
file_read read none buffer length m = (m, none, 0)
file_read read (some file) none length m = (m, some file, 0)
file_read read (some file) (some buffer) length m =
    let left = sub32 file.inode.size file.offset in
    let r =
      vfs_read read (some file.inode) file.offset (if ltb left length then left else length)
        (some buffer) m in
    (r.0, some (record file { offset = u32 (file.offset + r.1) }), r.1)

-- The file, and the code returned: `none` where the function ends without a `return`.
unfoldable pub file_seek : Option File → ℕ → SeekType → Option File × Option ErrorCode
file_seek none jmp seek_type = (none, some invalid_argument)
file_seek (some file) jmp seek_set =
    if is_negative jmp || leb file.inode.size jmp
    then (some file, some invalid_argument)
    else (some (record file { offset = jmp }), none)
file_seek (some file) jmp seek_cur =
    if leb file.inode.size (u32 (file.offset + jmp)) || ltb (u32 (file.offset + jmp)) 0
    then (some file, some invalid_argument)
    else (some (record file { offset = u32 (file.offset + jmp) }), none)
file_seek (some file) jmp seek_end =
    if is_negative jmp || (jmp == 0)
    then (some (record file { offset = sub32 file.offset jmp }), none)
    else (some file, some invalid_argument)
file_seek (some file) jmp (other_seek n) = (some file, some invalid_argument)

-- `file_close`: the node is closed by its file system and the file is freed, both on the state `S`.
unfoldable pub file_close :
    {S : Type 0}
    → (close : FsNode → S → S) → (kfree : File → S → S) → Option File
    → S
    → S × ErrorCode
file_close close kfree none s = (s, invalid_argument)
file_close close kfree (some file) s = (kfree file (close file.inode s), success)
