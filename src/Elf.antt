-- ===== src/Elf.antt =====
-- kernel/multitask/elf_loader.c and include/multitask/elf.h: the checks of the header of an ELF file.
-- The loading of its segments is in Elf/Load.
pub mod Header
pub mod Load
pub mod Segment
use mike_os.Base.{
  ℕ, ◌&&◌, not, Option, none, some, if◌then◌else◌, ErrorCode, success, invalid_argument, ◌==◌,
}

-- The fields of `Elf32_Ehdr` that the checks read.
pub record ElfHeader : Type 0 where
  pub e_ident : ℕ → ℕ
  pub e_type : ℕ
  pub e_machine : ℕ

unfoldable pub check_elf_header : Option ElfHeader → ErrorCode
check_elf_header none = invalid_argument
check_elf_header (some elf_header) =
    if not (elf_header.e_ident 0 == 0x7F)
    then invalid_argument
    else if not (elf_header.e_ident 1 == 69)
    then invalid_argument
    else if not (elf_header.e_ident 2 == 76)
    then invalid_argument
    else if not (elf_header.e_ident 3 == 70)
    then invalid_argument
    else success

unfoldable pub check_elf_supported : ElfHeader → ErrorCode
check_elf_supported elf_header =
    if not (elf_header.e_ident 4 == 1)
    then invalid_argument
    else if not (elf_header.e_ident 5 == 1)
    then invalid_argument
    else if not (elf_header.e_machine == 3)
    then invalid_argument
    else if not (elf_header.e_ident 6 == 1)
    then invalid_argument
    else if not (elf_header.e_type == 1) && not (elf_header.e_type == 2)
    then invalid_argument
    else success
