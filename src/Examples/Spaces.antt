-- ===== src/Examples/Spaces.antt =====
-- Concrete address spaces for kernel/mm/virtual_mm_manager.c, and a segment for
-- kernel/multitask/elf_loader.c.
-- The page at 4 MB is mapped; in the first space physical memory is used up.
use mike_os.Base.{
  ◌⊎◌, ℕ, ◌+◌, ◌*◌, ◌%◌, ◌<◌, ◌≡◌, refl, true, false, some, arith, if◌then◌else◌, success, ◌==◌,
}
use mike_os.Bitmap.{page_boundary}
use mike_os.Elf.Load.{Loading, ProgramHeader}
use mike_os.VirtualMemory.{
  AddressSpace, at_null, free_user_pages, map_page, mmap, mmap_loop, page_exists,
}
use mike_os.VirtualMemory.Map.{mmap-maps}
use mike_os.VirtualMemory.Store.{KeepsPages}
use mike_os.VirtualMemory.Tables.{IsExhausted, NoneAtNull}
use mike_os.VirtualMemory.Free.{WellFormed, free_user_pages-leaks, mmap-WellFormed}

abbrev user_space : AddressSpace
user_space = record {
  directory = λ i. if i == 1 then 0x5007 else 0;
  tables = λ k. if k == 1024 then 0x6007 else 0;
  physical = record { bitmap = λ _. 0; no_page_available = true };
}

user_space-WellFormed : WellFormed user_space
user_space-WellFormed = record {
  directory = λ k small used. ground (arith, used);
  tables = λ k small used. ground (arith, used);
}

-- The same space while physical pages are left.
abbrev roomy_space : AddressSpace
roomy_space = record user_space {
  physical = record { bitmap = λ _. 255; no_page_available = false };
}

roomy_space-NoneAtNull : NoneAtNull roomy_space
unfolding at_null
roomy_space-NoneAtNull k = ground arith

mmap-maps_example :
    (s' : AddressSpace) × (mmap 0x300000 3 0x400000 2 roomy_space ≡ some (s', success))
    × (IsExhausted 0x300000 s'
        ⊎ (((k : ℕ) → k < 2 → page_exists (0x400000 + k * 4096) s' ≡ true)
            × KeepsPages roomy_space s'))
mmap-maps_example =
    mmap-maps 0x300000 (omega arith) (omega arith) 3 0x400000 2 roomy_space refl (omega arith)
      (omega arith) (λ i. omega arith) roomy_space-NoneAtNull refl

mmap-WellFormed_example : WellFormed (map_page 0 0x401000 user_space)
unfolding mmap mmap_loop page_boundary
mmap-WellFormed_example =
    mmap-WellFormed 0 2 0x401000 1 user_space (map_page 0 0x401000 user_space) success
      user_space-WellFormed refl

free_user_pages-leaks_example : free_user_pages (some user_space) ≡ (some user_space, success)
free_user_pages-leaks_example = free_user_pages-leaks user_space user_space-WellFormed

-- A file of 9000 bytes in the ramdisk.
abbrev loading : Loading
loading = record {
  memory = λ a. a % 256;
  file = record {
    mode = 0;
    offset = 0;
    inode = record { address = 64; size = 9000; fs_specific = 0xC0500000 };
  };
  space = roomy_space;
  text_begin = 0;
  data_begin = 0;
}

abbrev segment : ProgramHeader
segment = record {
  p_type = 1;
  p_offset = 4096;
  p_vaddr = 0x400000;
  p_filesz = 100;
  p_memsz = 5000;
  p_flags = 6;
}
