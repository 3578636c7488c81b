-- ===== src/FileOpen.antt =====
-- kernel/fs/file.c: `file_open` with its table of modes, over `vfs_open` (kernel/fs/vfs.c), and
-- `file_write`. `possible_mode` i is the address of the i-th text of the table, `mode_buf` that of the
-- buffer on the stack. The file system that is mounted first is that of kernel/entry.c.
pub mod Layout
pub mod Mode
pub mod Ramdisk
use mike_os.Base.{
  ℕ, zero, suc, ◌+◌, true, false, Option, none, some, bit_or, if◌then◌else◌, length, write,
  invalid_argument, error_value, ltb, ◌==◌, u32, Outcome, done, undefined,
}
use mike_os.Memory.{Mem, memcpy}
use mike_os.Strings.{strlen, strncmp}
use mike_os.Initrd.{initrd_close, initrd_open, initrd_read, is_zero}
use mike_os.File.{File, FsNode, FsRead}
use mike_os.Vfs.{FileSystem, FsOpen, Run, Vfs, and_then}

-- `file_mode_t`.
abbrev mode_read : ℕ
mode_read = 1

abbrev mode_write : ℕ
mode_write = 2

abbrev append : ℕ
append = 4

abbrev create_file : ℕ
create_file = 8

abbrev truncate_to_zero : ℕ
truncate_to_zero = 16

-- `modes_bits`.
unfoldable pub modes_bits : ℕ → ℕ
modes_bits i =
    if ltb i 2
    then mode_read
    else if ltb i 4
    then bit_or (bit_or mode_write create_file) truncate_to_zero
    else if ltb i 6
    then bit_or append create_file
    else if ltb i 9
    then bit_or mode_read mode_write
    else if ltb i 12
    then bit_or (bit_or (bit_or truncate_to_zero create_file) mode_read) mode_write
    else bit_or append create_file

-- `SIZE_OF_ARRAY(possible_modes)`.
abbrev pub number_of_modes : ℕ
number_of_modes = 15

-- What is opened: the mount points, the memory and the file.
abbrev pub Opened : Type 0
Opened = Run (Vfs × Mem × Option File)

module _ (bound : ℕ) (possible_mode : ℕ → ℕ) (mode_buf : ℕ)
    (open_node : Option ℕ → Vfs → Mem → Run (Vfs × Mem × Option FsNode)) where
  -- What is done once the mode is found; `fresh` is what `kmalloc` answers, written through unchecked.
  unfoldable pub open_with : ℕ → ℕ → ℕ → Vfs → Mem → Opened
  unfolding modes_bits
  open_with fresh path i s m = and_then (open_node (some path) s m) λ opened. elim opened.2 [
    | none ↦ some (done (opened.0, opened.1, none))
    | some inode ↦ some (
        if fresh == 0
        then undefined
        else done
            (opened.0, opened.1, some (record { mode = modes_bits i; offset = 0; inode = inode })))
  ]

  -- The loop over the modes, with `left` of them to come.
  unfoldable pub modes_loop : ℕ → ℕ → ℕ → ℕ → Vfs → Mem → Opened
  unfolding open_with
  modes_loop fresh path zero i s m = some (done (s, m, none))
  modes_loop fresh path (suc left) i s m = elim (strncmp bound mode_buf (possible_mode i) 3 m) [
    | none ↦ none
    | some compared ↦ elim (is_zero compared.0) [
      | true ↦ open_with fresh path i s compared.1
      | false ↦ modes_loop fresh path left (i + 1) s compared.1
    ]
  ]

  unfoldable pub file_open : ℕ → Option ℕ → ℕ → Vfs → Mem → Opened
  unfolding modes_loop
  file_open fresh none mode s m = some (done (s, m, none))
  file_open fresh (some path) mode s m = elim (strlen bound m mode) [
    | none ↦ none
    | some mode_size ↦
        modes_loop fresh path number_of_modes 0 s
          (write (memcpy mode_buf mode mode_size m) (mode_buf + mode_size) 0)
  ]

-- `fs->write` of the file's node is called without a test. The code of an error is returned as the
-- number of bytes.
unfoldable pub file_write :
    Option FsRead → Option File → Option ℕ → ℕ → Mem → Outcome (Mem × Option File × ℕ)
file_write write_to none buffer length m = done (m, none, error_value invalid_argument)
file_write write_to (some file) none length m = done (m, some file, error_value invalid_argument)
file_write write_to (some file) (some buffer) length m = elim write_to [
  | none ↦ undefined
  | some write_node ↦
      let r = write_node (some file.inode) file.offset length (some buffer) m in
      done (r.0, some (record file { offset = u32 (file.offset + r.1) }), r.1)
]

-- The file system of the ramdisk that stands at `partition_begin_offset`; `fs_node` is what `kmalloc`
-- answers when a node is opened.
abbrev pub initrd_open_at : ℕ → ℕ → Option ℕ → FsOpen
initrd_open_at bound partition_begin_offset fs_node none path m =
    initrd_open bound m none path fs_node
initrd_open_at bound partition_begin_offset fs_node (some fs) path m =
    initrd_open bound m (some (fs, partition_begin_offset)) path fs_node

unfoldable pub initrd_fs : ℕ → ℕ → ℕ → Option ℕ → (FsNode → Mem → Mem) → FileSystem
initrd_fs bound fs_address partition_begin_offset fs_node kfree = record {
  address = fs_address;
  read = some initrd_read;
  write_to = none;
  open_path = some (initrd_open_at bound partition_begin_offset fs_node);
  close = some (λ node m. initrd_close kfree (some node) m);
}
