-- ===== src/Examples/Tasks.antt =====
-- A kernel for kernel/multitask/task.c whose state is the last address that was given out.
use mike_os.Base.{
  ℕ, ◌+◌, ◌≡◌, ◌⊎◌, refl, none, some, List, [], ◌∷◌, arith, if◌then◌else◌, success, failure, ◌==◌,
  done,
}
use mike_os.Task.{Kernel, Task, alloc_task, alloc_virtual_address_space, finish_task, free_task}
use mike_os.Task.Ledger.{recorded}
use mike_os.Task.Held.{alloc_task-free_task}

abbrev bump_kernel : Kernel ℕ
bump_kernel = record {
  kmalloc = λ n s. (s + n, s + n);
  kfree = λ a s. s;
  alloc_page_dir = λ vmm s. (s, if s == 0x2000 then failure else success);
  free_user_pages = λ vmm s. s;
  free_page_directory = λ vmm s. s;
  alloc_kheap_pages = λ n s. (s, if s == 0x1064 then 0 else 0xC0800000);
  free_kheap_pages = λ a n s. s;
}

abbrev raw_task : Task
raw_task = record {
  address = 0;
  vmm = 0;
  name = [];
  stack_begin = 0;
  stack_end = 0;
  text_begin = 0;
  kernel_ss = 0;
  kernel_stack = 0;
}

abbrev shell_name : List ℕ
shell_name = 115 ∷ 104 ∷ []

alloc_task-free_task_example :
    let r = alloc_task (recorded bump_kernel) raw_task (some shell_name) (0x4000, []) in
    ((r.1 ≡ done none) × (r.0.1 ≡ []))
    ⊎ ((t : Task) × (r.1 ≡ done (some t))
        × ((free_task (recorded bump_kernel) (some t) r.0).1 ≡ success)
        × ((free_task (recorded bump_kernel) (some t) r.0).0.1 ≡ []))
alloc_task-free_task_example =
    alloc_task-free_task bump_kernel raw_task shell_name 0x4000 [] (omega arith)

-- From 0x1000 there is no page for the kernel's stack.
no_stack : (alloc_task (recorded bump_kernel) raw_task (some shell_name) (0x1000, [])).1 ≡ done none
unfolding recorded alloc_task finish_task alloc_virtual_address_space
no_stack = refl
