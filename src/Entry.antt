-- ===== src/Entry.antt =====
-- kernel/entry.c: `make_initrd_fs`, which maps the ramdisk that the boot loader left in physical memory.
-- `register_ramdisk` is declared and defined nowhere in the repository, and is an argument.
pub mod Ramdisk
use mike_os.Base.{
  ℕ, ◌+◌, ◌*◌, ◌/◌, not, Option, none, some, if◌then◌else◌, ErrorCode, is_success, ◌==◌, sub32, u32,
  Outcome, done, undefined,
}
use mike_os.Kheap.{Kheap, map_physical_address_to_kheap}

-- `struct multiboot_info` and its first module, as far as they are read.
pub record BootInfo : Type 0 where
  pub mods_count : ℕ
  pub mod_start : ℕ
  pub mod_end : ℕ

-- What `make_initrd_fs` computes of the file system.
pub record RootFs : Type 0 where
  pub partition_begin_offset : ℕ
  pub partition_end_offset : ℕ
  pub fs_specific : ℕ

-- From the mapping on; the answer NULL is a panic.
unfoldable pub map_ramdisk : ℕ → ℕ → Kheap → Option (Outcome (Kheap × RootFs))
map_ramdisk mod_start mod_end h =
    let num_pages = sub32 mod_end mod_start / 4096 in
    elim (map_physical_address_to_kheap mod_start num_pages h) [
      | undefined ↦ some undefined
      | done (h', virtual_address) ↦
          if virtual_address == 0
          then none
          else some (
              done (
                h',
                record {
                  partition_begin_offset = virtual_address;
                  partition_end_offset = u32 (virtual_address + u32 (num_pages * 4096));
                  fs_specific = sub32 mod_end mod_start;
                },
              ))
    ]

-- `none` is `kernel_panic`.
unfoldable pub make_initrd_fs :
    (register_ramdisk : ℕ → ℕ → Kheap → Kheap × ErrorCode)
    → BootInfo
    → Kheap
    → Option (Outcome (Kheap × RootFs))
unfolding map_ramdisk
make_initrd_fs register_ramdisk info h =
    if not (info.mods_count == 1)
    then none
    else let (h1, code) = register_ramdisk info.mod_start info.mod_end h in
      if not (is_success code) then none else map_ramdisk info.mod_start info.mod_end h1
