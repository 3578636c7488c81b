-- ===== src/Elf/Header.antt =====
-- Which files the loader takes (kernel/multitask/elf_loader.c).
use mike_os.Base.{◌≡◌, ◌⊎◌, ◌↔◌, arith, some, success}
use mike_os.Elf.{ElfHeader, check_elf_header, check_elf_supported}

-- The two checks of `load_elf` pass exactly for a 32-bit little-endian x86 ELF file of version 1 that is
-- relocatable or executable.
pub checks_iff :
    (h : ElfHeader)
    → ((check_elf_header (some h) ≡ success) × (check_elf_supported h ≡ success)) ↔ (
        (h.e_ident 0 ≡ 0x7F)
        × (h.e_ident 1 ≡ 69)
        × (h.e_ident 2 ≡ 76)
        × (h.e_ident 3 ≡ 70)
        × (h.e_ident 4 ≡ 1)
        × (h.e_ident 5 ≡ 1)
        × (h.e_ident 6 ≡ 1)
        × (h.e_machine ≡ 3)
        × ((h.e_type ≡ 1) ⊎ (h.e_type ≡ 2)))
unfolding check_elf_header check_elf_supported
checks_iff h = (
  λ ok. (
    ground arith,
    ground arith,
    ground arith,
    ground arith,
    ground arith,
    ground arith,
    ground arith,
    ground arith,
    ground arith,
  ),
  λ is. (ground arith, ground arith),
)
