-- ===== src/Task.antt =====
-- kernel/multitask/task.c, and the allocation of an address space that it uses
-- (kernel/mm/virtual_mm_manager.c), over an interface of the parts they call. A pointer is its address, 0
-- for NULL.
pub mod Ledger
pub mod Held
use mike_os.Base.{
  ℕ, ◌+◌, ◌-◌, ◌*◌, Option, none, some, List, if◌then◌else◌, length, ErrorCode, success, failure,
  invalid_argument, is_success, leb, ◌==◌, u32, Outcome, done, undefined,
}
use mike_os.VirtualMemory.{kernel_virtual_offset}

-- What the other parts of the kernel do on its state `S`. `free_user_pages` is the loop of
-- `free_virtual_address_space`, `free_page_directory` its call of `free_kheap_pages`. The record has no laws:
-- whether a function gives back what it is handed is not assumed.
pub record Kernel (S : Type 0) : Type 0 where
  pub kmalloc : ℕ → S → S × ℕ
  pub kfree : ℕ → S → S
  pub alloc_page_dir : ℕ → S → S × ErrorCode
  pub free_user_pages : ℕ → S → S
  pub free_page_directory : ℕ → S → S
  pub alloc_kheap_pages : ℕ → S → S × ℕ
  pub free_kheap_pages : ℕ → ℕ → S → S

-- `task_t`, as far as task.c uses it; `address` is where it stands.
pub record Task : Type 0 where
  pub address : ℕ
  pub vmm : ℕ
  pub name : List ℕ
  pub stack_begin : ℕ
  pub stack_end : ℕ
  pub text_begin : ℕ
  pub kernel_ss : ℕ
  pub kernel_stack : ℕ

-- What `load_task` calls besides; `jmp_to_userspace` takes the first instruction and the stack.
pub record Loader (S : Type 0) : Type 0 where
  pub switch_virtual_address_space : ℕ → S → S
  pub set_kernel_stack : ℕ → S → S
  pub load_elf : Task → S → S × Task × ErrorCode
  pub mmap : ℕ → ℕ → S → S × ErrorCode
  pub jmp_to_userspace : ℕ → ℕ → S → S

-- `sizeof(task_t)`, `sizeof(virtual_address_space_t)` and the length of `name`.
abbrev pub task_size : ℕ
task_size = 92

abbrev pub address_space_size : ℕ
address_space_size = 8

abbrev pub name_size : ℕ
name_size = 20

abbrev pub kernel_data_segment : ℕ
kernel_data_segment = 16

abbrev pub kernel_stack_size : ℕ
kernel_stack_size = 4096

abbrev pub stack_end_address : ℕ
stack_end_address = kernel_virtual_offset - 4096

-- `STACK_SIZE`, in pages.
abbrev pub stack_size : ℕ
stack_size = 5

module _ {S : Type 0} (kernel : Kernel S) where
  unfoldable pub alloc_virtual_address_space : S → S × ℕ
  alloc_virtual_address_space s =
      let (s1, vmm) = kernel.kmalloc address_space_size s in
      if vmm == 0
      then (s1, 0)
      else let (s2, code) = kernel.alloc_page_dir vmm s1 in
        if is_success code then (s2, vmm) else (kernel.kfree vmm s2, 0)

  unfoldable pub free_virtual_address_space : ℕ → S → S × ErrorCode
  free_virtual_address_space vmm s = if vmm == 0 then (s, invalid_argument) else (
    kernel.kfree vmm (kernel.free_page_directory vmm (kernel.free_user_pages vmm s)),
    success,
  )

  -- From the stack on, with the address space there; `old` is what the memory of the task holds. A
  -- name that does not fit with its terminator is written over the fields behind it.
  unfoldable pub finish_task : Task → List ℕ → ℕ → ℕ → S → S × Outcome (Option Task)
  unfolding free_virtual_address_space
  finish_task old name address vmm s =
      let (s1, kernel_stack) = kernel.alloc_kheap_pages 1 s in
      if leb name_size (length name)
      then (s, undefined)
      else if kernel_stack == 0
      then (kernel.kfree address (free_virtual_address_space vmm s1).0, done none)
      else (
        s1,
        done (
            some (record old {
              address = address;
              vmm = vmm;
              name = name;
              kernel_ss = kernel_data_segment;
              kernel_stack = kernel_stack;
            })),
      )

  unfoldable pub alloc_task : Task → Option (List ℕ) → S → S × Outcome (Option Task)
  unfolding alloc_virtual_address_space finish_task
  alloc_task old none s = (s, done none)
  alloc_task old (some name) s =
      let (s1, address) = kernel.kmalloc task_size s in
      if address == 0
      then (s1, done none)
      else let (s2, vmm) = alloc_virtual_address_space s1 in
        if vmm == 0
        then (kernel.kfree address s2, done none)
        else finish_task old name address vmm s2

  unfoldable pub free_task : Option Task → S → S × ErrorCode
  unfolding free_virtual_address_space
  free_task none s = (s, invalid_argument)
  free_task (some task) s =
      let (s1, code) = free_virtual_address_space task.vmm s in
      if is_success code
      then (kernel.kfree task.address (kernel.free_kheap_pages task.kernel_stack 1 s1), success)
      else (s1, failure)

  -- `load_task` from the mapping of the stack on.
  unfoldable pub map_stack : Loader S → Task → S → S × Option Task
  unfolding free_task
  map_stack loader task s =
      let stack_begin = stack_end_address - stack_size * 4096 in
      let (s1, code) = loader.mmap stack_begin stack_size s in
      let loaded = record task { stack_begin = stack_begin; stack_end = stack_end_address } in
      if is_success code
      then (loader.jmp_to_userspace loaded.text_begin loaded.stack_end s1, some loaded)
      else ((free_task (some task) s1).0, none)

  unfoldable pub load_task : Loader S → Task → Option (List ℕ) → S → S × Outcome (Option Task)
  unfolding alloc_task map_stack
  load_task loader old path s =
      let (s1, allocated) = alloc_task old path s in
      elim allocated [
        | undefined ↦ (s1, undefined)
        | done none ↦ (s1, done none)
        | done (some task) ↦
            let s2 = loader.switch_virtual_address_space task.vmm s1 in
            let s3 = loader.set_kernel_stack (u32 (task.kernel_stack + kernel_stack_size)) s2 in
            let (s4, task', code) = loader.load_elf task s3 in
            if is_success code
            then (let (s5, result) = map_stack loader task' s4 in (s5, done result))
            else ((free_task (some task') s4).0, done none)
      ]
