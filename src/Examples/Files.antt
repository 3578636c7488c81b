-- ===== src/Examples/Files.antt =====
-- Concrete files for kernel/fs/file.c and kernel/fs/initrd.c, and a console for
-- kernel/drivers/vga/vga.c.
use mike_os.Base.{
  ℕ, ◌+◌, ◌-◌, ◌%◌, ◌^◌, ◌≤◌, ◌≡◌, inr, ◌&&◌, Option, none, some, arith, min, ltb, leb,
  if◌then◌else◌, ErrorCode, invalid_argument, done,
}
use mike_os.File.{File, FsNode, file_read, file_seek, seek_cur, seek_set}
use mike_os.File.Seek.{file_seek-within}
use mike_os.Initrd.{initrd_read}
use mike_os.Initrd.Read.{file_read-initrd_read}
use mike_os.Memory.{Mem}
use mike_os.Vga.{VgaState, vga_putc}
use mike_os.Vga.Cursor.{IsPlaced, IsStep, vga_putc-IsStep}

-- A file of 100 bytes at 0x1000, read up to byte 90.
abbrev node : FsNode
node = record { address = 0x9000; size = 100; fs_specific = 0x1000 }

abbrev file : File
file = record { mode = 1; offset = 90; inode = node }

abbrev bytes : Mem
bytes a = a % 256

file_read-initrd_read_example :
    let n = min 32 (100 - 90) in
    let r = file_read initrd_read (some file) (some 0x8000) 32 bytes in
    (r.2 ≡ n)
    × (r.1 ≡ some (record file { offset = 90 + n }))
    × (90 + n ≤ 100)
    × ((a : ℕ)
        → r.0 a ≡ (
            if leb 0x8000 a && ltb a (0x8000 + n)
            then bytes (0x1000 + 90 + (a - 0x8000))
            else bytes a))
file_read-initrd_read_example =
    file_read-initrd_read file 0x8000 32 bytes (omega arith) (omega arith) (omega arith)
      (inr (omega arith))

file_seek-within_example :
    let moved : ℕ → Option File × Option ErrorCode =
      λ target. (some (record file { offset = target }), none) in
    let refused : Option File × Option ErrorCode = (some file, some invalid_argument) in
    (file_seek (some file) 5 seek_set ≡ (if ltb 5 100 then moved 5 else refused))
    × (file_seek (some file) (2 ^ 32 - 40) seek_set ≡ refused)
    × (file_seek (some file) 5 seek_cur ≡ (if ltb (90 + 5) 100 then moved (90 + 5) else refused))
    × (file_seek (some file) (2 ^ 32 - 40) seek_cur
        ≡ (if leb 40 90 then moved (90 - 40) else refused))
file_seek-within_example =
    file_seek-within file 5 40 (omega arith) (omega arith) (omega arith) (omega arith) (omega arith)

abbrev console : VgaState
console = record { vga_buffer = 0xb8000; color = 7; x = 80; y = 3; memory = λ _. 0 }

console-IsPlaced : IsPlaced console
console-IsPlaced = record { column = omega arith; row = omega arith; fits = omega arith }

vga_putc-IsStep_example : (t : VgaState) × (vga_putc 65 console ≡ done t) × IsStep console t
vga_putc-IsStep_example =
    vga_putc-IsStep 65 console console-IsPlaced (λ e. absurd (omega arith))
      (λ e. absurd (omega arith))
