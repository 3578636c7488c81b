-- ===== src/Examples/Opening.antt =====
-- A ramdisk with one file, mounted and opened, for kernel/fs/vfs.c and kernel/fs/file.c.
use mike_os.Base.{
  ℕ, ◌+◌, ◌*◌, ◌≡◌, refl, true, ◌||◌, Option, none, some, List, [], ◌∷◌, arith, if◌then◌else◌, ◌==◌,
}
use mike_os.Base.Int.{ℤ, pos}
use mike_os.Base.Int.{ℤ, pos}
use mike_os.Memory.{Mem}
use mike_os.Strings.{strcmp, strncmp}
use mike_os.Strings.Texts.{IsText}
use mike_os.Strings.Compare.{AllBytes}
use mike_os.LinkedList.{LinkedList}
use mike_os.File.{File, FsNode}
use mike_os.Vfs.{FileSystem, FsOpen, Vfs, vfs_init, vfs_mount, vfs_open}
use mike_os.Vfs.Mount.{IsMounted, MountsFirst, root_path, vfs_init-vfs_mount}
use mike_os.FileOpen.{Opened, file_open, initrd_fs, initrd_open_at}
use mike_os.Vfs.Open.{opened_by, vfs_open-mounted}

-- "ab" with the two bytes 7 and 9 in a ramdisk at 0x1000, the path "/ab" at 100, "r" at 200 and 300, and
-- "/" at 700.
abbrev disk : Mem
disk a =
    if (a == 100) || (a == 700)
    then 47
    else if (a == 101) || (a == 0x100c)
    then 97
    else if (a == 102) || (a == 0x100d)
    then 98
    else if (a == 200) || (a == 300)
    then 114
    else if a == 0x1000
    then 1
    else if a == 0x1008
    then 2
    else if a == 0x1020
    then 7
    else if a == 0x1021
    then 9
    else 0

abbrev ab_name : List ℕ
ab_name = 97 ∷ 98 ∷ []

ab_name-bytes : AllBytes ab_name
ab_name-bytes = (omega arith, (omega arith, tt))

abbrev no_list : LinkedList
no_list = record { element_of = λ _. 0; next = λ _. 0; head_node = 0; iter_node = 0; freed = [] }

abbrev keep : FsNode → Mem → Mem
keep node m = m

abbrev root_fs : FileSystem
root_fs = initrd_fs 9 0x2000 0x1000 (some 500) keep

abbrev root_open : FsOpen
root_open = initrd_open_at 9 0x1000 (some 500)

abbrev mounted_vfs : Vfs
mounted_vfs = record {
  mount_points = 0x3000;
  root_mount_point = 0x3000;
  children = no_list;
  mounted_fs = λ _. some root_fs;
}

mounted_vfs-IsMounted : IsMounted mounted_vfs root_fs root_open
unfolding initrd_fs
mounted_vfs-IsMounted = record {
  root = λ e. absurd (omega arith);
  same_root = refl;
  no_child = refl;
  iterator = refl;
  mounted = refl;
  opens = refl;
}

vfs_open-mounted_example :
    vfs_open 9 (λ k. 0x4000 + 8 * k) true no_list (some 100) mounted_vfs disk
    ≡ opened_by mounted_vfs root_fs root_open (some 100) disk
vfs_open-mounted_example =
    vfs_open-mounted 7 (λ k. 0x4000 + 8 * k) no_list (some 100) mounted_vfs disk root_fs root_open
      (λ e. absurd (omega arith)) mounted_vfs-IsMounted

disk-IsText : IsText disk 101 ab_name
disk-IsText = (refl, λ e. absurd (omega arith), (refl, λ e. absurd (omega arith), refl))

abbrev run : Opened
run =
    file_open 9 (λ i. 300 + 4 * i) 400 (vfs_open 9 (λ k. 0x4000 + 8 * k) true no_list) 0x5000
      (some 100) 200 mounted_vfs disk

slash-IsText : IsText disk 700 root_path
slash-IsText = (refl, λ e. absurd (omega arith), refl)

vfs_init-vfs_mount_example :
    (s : Vfs) × (m1 : Mem) × (vfs_init true 0x3000 700 mounted_vfs disk ≡ some (s, m1))
    × MountsFirst s root_fs ab_name (vfs_mount 9 700 (some 101) (some root_fs) s disk)
vfs_init-vfs_mount_example =
    vfs_init-vfs_mount 9 0x3000 700 101 ab_name mounted_vfs disk disk root_fs
      (λ e. absurd (omega arith)) ab_name-bytes disk-IsText slash-IsText (omega arith)

-- Behind "r" stands "rb" in the table: its first byte is overwritten when "rb" is compared with "r", and
-- "rb" is found no more.
abbrev packed : Mem
packed a =
    if (a == 200) || (a == 300) || (a == 302)
    then 114
    else if (a == 201) || (a == 303)
    then 98
    else 0

rb_lost :
    elim (strncmp 9 200 300 3 packed) as (λ _. Option ℤ) [
      | none ↦ none
      | some r ↦ elim (strncmp 9 200 302 3 r.1) [ none ↦ none | some r' ↦ some r'.0 ]
    ]
    ≡ some (pos 1)
unfolding strncmp strcmp
rb_lost = refl
