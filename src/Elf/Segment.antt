-- ===== src/Elf/Segment.antt =====
-- Loading one segment (kernel/multitask/elf_loader.c) of a file of the initial ramdisk.
use mike_os.Base.{ℕ, ◌+◌, ◌*◌, ◌/◌, ◌≤◌, ◌<◌, ◌≡◌, true}
use mike_os.Memory.{Mem}
use mike_os.VirtualMemory.{page_exists}
use mike_os.Elf.Load.{Loading, ProgramHeader}

-- The bytes from the address are the file's and zeros follow up to the size in memory, all in pages that
-- exist; `before` is the memory that the file stands in.
pub record IsLoaded (segment : ProgramHeader) (file : ℕ) (before : Mem) (l : Loading) : Type 0 where
  pub bytes :
      (k : ℕ)
      → k < segment.p_filesz
      → l.memory (segment.p_vaddr + k) ≡ before (file + segment.p_offset + k)
  pub zeros :
      (k : ℕ) → segment.p_filesz ≤ k → k < segment.p_memsz → l.memory (segment.p_vaddr + k) ≡ 0
  pub pages :
      (k : ℕ) → k < segment.p_memsz → page_exists (segment.p_vaddr + k / 4096 * 4096) l.space ≡ true
