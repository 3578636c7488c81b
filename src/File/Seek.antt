-- ===== src/File/Seek.antt =====
-- Where `file_seek` moves the offset (kernel/fs/file.c).
use mike_os.Base.{
  ℕ, ◌+◌, ◌-◌, ◌^◌, ◌<◌, ◌≡◌, arith, ltb, leb, if◌then◌else◌, Option, none, some, ErrorCode,
  invalid_argument,
}
use mike_os.File.{File, seek_set, seek_cur, seek_end, file_seek}

-- SEEK_SET and SEEK_CUR in a file of less than 2 GB, from an offset in it. A target inside the file
-- becomes the offset, and then no code is returned; any other target, the end of the file included,
-- is refused and leaves the file as it was. SEEK_CUR back by k is `jmp` = 2 ^ 32 - k.
pub file_seek-within :
    (file : File) (jmp k : ℕ)
    → file.inode.size < 2 ^ 31
    → file.offset < file.inode.size
    → jmp < 2 ^ 31
    → 0 < k
    → k < 2 ^ 31
    → let moved : ℕ → Option File × Option ErrorCode =
        λ target. (some (record file { offset = target }), none) in
      let refused : Option File × Option ErrorCode = (some file, some invalid_argument) in
      (file_seek (some file) jmp seek_set
        ≡ (if ltb jmp file.inode.size then moved jmp else refused))
      × (file_seek (some file) (2 ^ 32 - k) seek_set ≡ refused)
      × (file_seek (some file) jmp seek_cur ≡ (
          if ltb (file.offset + jmp) file.inode.size then moved (file.offset + jmp) else refused))
      × (file_seek (some file) (2 ^ 32 - k) seek_cur
          ≡ (if leb k file.offset then moved (file.offset - k) else refused))
unfolding file_seek
file_seek-within file jmp k small inside forward positive back =
    (ground arith, ground arith, ground arith, ground arith)

-- SEEK_END back by k adds k to the current offset, whatever the size of the file, and no code is
-- returned; SEEK_END forward is refused.
pub file_seek-end_moves_forward :
    (file : File) (k : ℕ)
    → 0 < k
    → k < 2 ^ 31
    → file.offset + k < 2 ^ 32
    → (file_seek (some file) (2 ^ 32 - k) seek_end
        ≡ (some (record file { offset = file.offset + k }), none))
      × (file_seek (some file) k seek_end ≡ (some file, some invalid_argument))
unfolding file_seek
file_seek-end_moves_forward file k positive small fits = (ground arith, ground arith)
