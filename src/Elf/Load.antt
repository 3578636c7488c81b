-- ===== src/Elf/Load.antt =====
-- kernel/multitask/elf_loader.c: loading the segments of an executable. The kernel's memory is the bytes that
-- it sees in the address space in CR3; the buffers on the stack stand at addresses of it. Two pages of the
-- space are taken to be two physical pages, as they are while the allocator has pages.
-- The fields of `Elf32_Phdr` that the code reads.
use mike_os.Base.{
  ℕ, zero, suc, ◌+◌, ◌*◌, ◌/◌, ◌^◌, not, Option, none, some, if◌then◌else◌, length, ErrorCode,
  success, failure, no_such_file, is_success, ltb, ◌==◌, sub32, u32,
}
use mike_os.Memory.{Mem, memset}
use mike_os.Bitmap.{page_boundary}
use mike_os.File.{File, FsRead, file_read, file_seek, seek_set}
use mike_os.Elf.{ElfHeader, check_elf_header, check_elf_supported}
use mike_os.VirtualMemory.{AddressSpace, mmap}

pub record ProgramHeader : Type 0 where
  pub p_type : ℕ
  pub p_offset : ℕ
  pub p_vaddr : ℕ
  pub p_filesz : ℕ
  pub p_memsz : ℕ
  pub p_flags : ℕ

-- The numbers of two and four bytes at an address.
abbrev pub half_at : Mem → ℕ → ℕ
half_at m a = m a + m (a + 1) * 2 ^ 8

abbrev pub word_at : Mem → ℕ → ℕ
word_at m a = half_at m a + half_at m (a + 2) * 2 ^ 16

unfoldable pub program_header : Mem → ℕ → ProgramHeader
program_header m a = record {
  p_type = word_at m a;
  p_offset = word_at m (a + 4);
  p_vaddr = word_at m (a + 8);
  p_filesz = word_at m (a + 16);
  p_memsz = word_at m (a + 20);
  p_flags = word_at m (a + 24);
}

-- The fields of the header, at an address: those that the checks read, and the table of the segments.
unfoldable pub elf_header : Mem → ℕ → ElfHeader
elf_header m a = record {
  e_ident = λ i. m (a + i);
  e_type = half_at m (a + 16);
  e_machine = half_at m (a + 18);
}

abbrev pub e_phoff : Mem → ℕ → ℕ
e_phoff m a = word_at m (a + 28)

abbrev pub e_phnum : Mem → ℕ → ℕ
e_phnum m a = half_at m (a + 44)

-- What loading changes; of the task, the two fields that it writes.
pub record Loading : Type 0 where
  pub memory : Mem
  pub file : File
  pub space : AddressSpace
  pub text_begin : ℕ
  pub data_begin : ℕ

abbrev pub or_else : Option File → File → File
or_else none file = file
or_else (some file) other = file

unfoldable pub aligned_mem_size : ℕ → ℕ
unfolding page_boundary
aligned_mem_size segment_memory_size =
    let aligned = page_boundary segment_memory_size in
    if ltb aligned segment_memory_size then u32 (aligned + 4096) else aligned

module _ (kernel_end : ℕ) (read : FsRead) where
  -- `file_seek(file, offset, SEEK_SET)`, whose result is ignored, and `file_read` to a buffer: what the
  -- loading becomes, and the number of bytes.
  unfoldable pub read_at : ℕ → ℕ → ℕ → Loading → Loading × ℕ
  unfolding file_seek file_read
  read_at offset buffer length l =
      let sought = (file_seek (some l.file) offset seek_set).0 in
      let (memory, file, count) = file_read read sought (some buffer) length l.memory in
      (record l { memory = memory; file = or_else file l.file }, count)

  unfoldable pub load_program_header_table : ℕ → ℕ → ℕ → Loading → Loading × ℕ
  unfolding read_at
  load_program_header_table elf_header segments_headers number_of_segments l =
      read_at (e_phoff l.memory elf_header) segments_headers (u32 (number_of_segments * 32)) l

  -- The zeros behind the bytes of the file, and the task's fields.
  unfoldable pub finish_segment : ProgramHeader → Loading → Loading
  unfolding memset aligned_mem_size
  finish_segment segment l =
      let address = segment.p_vaddr in
      record l {
        memory =
            if ltb segment.p_filesz segment.p_memsz
            then memset 0 (u32 (address + segment.p_filesz))
                (sub32 (aligned_mem_size segment.p_memsz) segment.p_filesz) l.memory
            else l.memory;
        text_begin = if segment.p_flags == 5 then address else l.text_begin;
        data_begin = if segment.p_flags == 6 then address else l.data_begin;
      }

  -- The body of the loop for a segment of type PT_LOAD, on fuel for `mmap`.
  unfoldable pub load_segment : ℕ → ProgramHeader → Loading → Option (Loading × ErrorCode)
  unfolding mmap read_at finish_segment
  load_segment fuel segment l =
      elim (mmap kernel_end fuel segment.p_vaddr (segment.p_memsz / 4096 + 1) l.space) [
        | none ↦ none
        | some (space, code) ↦
            let (l', count) =
              read_at segment.p_offset segment.p_vaddr segment.p_filesz
                (record l { space = space }) in
            if not (is_success code)
            then some (record l { space = space }, failure)
            else if count == 0
            then some (l', failure)
            else some (finish_segment segment l', success)
      ]

  -- The loop, from segment i over the segments left; the table of headers stays where it was read.
  unfoldable pub segments_loop : ℕ → ℕ → ℕ → ℕ → Loading → Option (Loading × ErrorCode)
  unfolding load_segment program_header
  segments_loop fuel segments i zero l = some (l, success)
  segments_loop fuel segments i (suc left) l =
      let segment = program_header l.memory (segments + i * 32) in
      let loaded = if segment.p_type == 1 then load_segment fuel segment l else some (l, success) in
      elim loaded [
        | none ↦ none
        | some (l', success) ↦ segments_loop fuel segments (i + 1) left l'
        | some (l', code) ↦ some (l', code)
      ]

  unfoldable pub load_segments : ℕ → ℕ → ℕ → Loading → Option (Loading × ErrorCode)
  unfolding load_program_header_table segments_loop
  load_segments fuel elf_header segments l =
      let number_of_segments = e_phnum l.memory elf_header in
      let (l', count) = load_program_header_table elf_header segments number_of_segments l in
      if count == 0 then some (l', failure) else segments_loop fuel segments 0 number_of_segments l'

  -- `load_elf` from the opened file on; `none` is the NULL of `file_open`, and the header's buffer has been
  -- set to zeros. The result of `load_segments` is ignored.
  unfoldable pub load_elf : ℕ → ℕ → ℕ → Option Loading → Option (Option Loading × ErrorCode)
  unfolding load_segments read_at memset elf_header check_elf_header check_elf_supported
  load_elf fuel elf_header_buf segments none = some (none, no_such_file)
  load_elf fuel elf_header_buf segments (some l) =
      let cleared = record l { memory = memset 0 elf_header_buf 52 l.memory } in
      let (memory, file, count) =
        file_read read (some cleared.file) (some elf_header_buf) 52 cleared.memory in
      let l' = record cleared { memory = memory; file = or_else file cleared.file } in
      let header = elf_header memory elf_header_buf in
      if count == 0
      then some (some l', failure)
      else if not (is_success (check_elf_header (some header)))
      then some (some l', failure)
      else if not (is_success (check_elf_supported header))
      then some (some l', failure)
      else if header.e_type == 2
      then elim (load_segments fuel elf_header_buf segments l') [
        | none ↦ none
        | some (l'', code) ↦ some (some l'', success)
      ]
      else some (some l', success)
