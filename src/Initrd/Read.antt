-- ===== src/Initrd/Read.antt =====
-- Reading a file of the initial ramdisk through the file layer (kernel/fs/initrd.c, kernel/fs/file.c).
use mike_os.Base.{
  ℕ, ◌+◌, ◌-◌, ◌^◌, ◌≤◌, ◌<◌, ◌≡◌, ◌⊎◌, arith, sub32, ltb, leb, if◌then◌else◌, some, min, ◌&&◌,
}
use mike_os.Memory.{Mem}
use mike_os.Memory.Copy.{memcpy_lem}
use mike_os.File.{File, FsNode, file_read, vfs_read}
use mike_os.Initrd.{initrd_read}

-- A read from an offset in the file, to a buffer that does not begin inside what is read before it:
-- the answer n is the number of bytes asked for or the number left, whichever is less; the offset
-- grows by n and stays in the file; the buffer holds the n bytes of the file from the old offset, and
-- memory outside these n bytes of the buffer is as before.
pub file_read-initrd_read :
    (file : File) (buffer length : ℕ) (m : Mem)
    → file.offset ≤ file.inode.size
    → file.inode.size < 2 ^ 32
    → length < 2 ^ 32
    → (buffer ≤ file.inode.fs_specific + file.offset)
      ⊎ (file.inode.fs_specific + file.offset + min length (file.inode.size - file.offset) ≤ buffer)
    → let source = file.inode.fs_specific + file.offset in
      let n = min length (file.inode.size - file.offset) in
      let r = file_read initrd_read (some file) (some buffer) length m in
      (r.2 ≡ n)
      × (r.1 ≡ some (record file { offset = file.offset + n }))
      × (file.offset + n ≤ file.inode.size)
      × ((a : ℕ)
          → r.0 a ≡ (if leb buffer a && ltb a (buffer + n) then m (source + (a - buffer)) else m a))
unfolding file_read initrd_read vfs_read
file_read-initrd_read file buffer length m inside size32 length32 apart =
    let n = min length (file.inode.size - file.offset) in
    let source = file.inode.fs_specific + file.offset in
    let left : (if ltb (sub32 file.inode.size file.offset) length
          then sub32 file.inode.size file.offset
          else length)
        ≡ n =
      ground arith in
    let copy = memcpy_lem buffer source n m apart in
    (ground arith, ground arith, ground arith, λ a. ground (arith, copy a))

-- `offset + length` wraps: a read of 2 ^ 32 - offset bytes from an offset that is not 0 is accepted
-- for a file of any size, and copies all of them.
pub initrd_read-wraps :
    (node : FsNode) (offset buffer : ℕ) (m : Mem)
    → 0 < offset
    → offset < 2 ^ 32
    → (initrd_read (some node) offset (2 ^ 32 - offset) (some buffer) m).1 ≡ 2 ^ 32 - offset
unfolding initrd_read
initrd_read-wraps node offset buffer m positive small = ground arith
