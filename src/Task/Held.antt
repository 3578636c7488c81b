-- ===== src/Task/Held.antt =====
-- What `alloc_task` and `free_task` (kernel/multitask/task.c) are given and hand back.
use mike_os.Base.{
  ℕ, ◌<◌, ◌≡◌, ◌≢◌, ◌⊎◌, inl, inr, refl, sym, ap, subst, ◌∙◌, false, Option, none, some, List, ◌∷◌,
  arith, if◌then◌else◌, length, success, leb, ◌==◌, Outcome, done,
}
use mike_os.Task.{
  Kernel, Task, alloc_task, alloc_virtual_address_space, finish_task, free_task, name_size,
  task_size,
}
use mike_os.Task.Ledger.{
  IsLedger, Resource, alloc_virtual_address_space-held, block, directory, erase,
  free_virtual_address_space-held, heap_page, if-false, null-cases, recorded, recorded-IsLedger,
  same_number,
}

module _ {S : Type 0} (kernel : Kernel S) (held : S → List Resource)
    (ok : IsLedger kernel held) where
  -- What a task holds, over what is held besides.
  abbrev pub resources : Task → List Resource → List Resource
  resources t base =
      heap_page t.kernel_stack ∷ directory t.vmm ∷ block t.vmm ∷ block t.address ∷ base

  -- NULL and nothing more is held, or a task and what it holds.
  abbrev pub IsAnswer : List Resource → S × Outcome (Option Task) → Type 0
  IsAnswer base r =
      ((r.1 ≡ done none) × (held r.0 ≡ base))
      ⊎ ((t : Task) × (r.1 ≡ done (some t)) × (t.vmm ≢ 0) × (held r.0 ≡ resources t base))

  erase-block : (a : ℕ) (base : List Resource) → erase (block a) (block a ∷ base) ≡ base
  erase-block a base = rw (same_number a) refl

  erase-directory : (a : ℕ) (base : List Resource) → erase (directory a) (directory a ∷ base) ≡ base
  erase-directory a base = rw (same_number a) refl

  erase-page : (a : ℕ) (base : List Resource) → erase (heap_page a) (heap_page a ∷ base) ≡ base
  erase-page a base = rw (same_number a) refl

  erase-space :
      (vmm : ℕ) (base : List Resource)
      → erase (block vmm) (erase (directory vmm) (directory vmm ∷ block vmm ∷ base)) ≡ base
  erase-space vmm base =
      ap (erase (block vmm)) (erase-directory vmm (block vmm ∷ base)) ∙ erase-block vmm base

  finish_task-held :
      (old : Task) (name : List ℕ) (address vmm : ℕ) (s : S) (base : List Resource)
      → length name < name_size
      → vmm ≢ 0
      → held s ≡ directory vmm ∷ block vmm ∷ block address ∷ base
      → IsAnswer base (finish_task kernel old name address vmm s)
  unfolding finish_task
  finish_task-held old name address vmm s base short set' holds =
      let p = kernel.alloc_kheap_pages 1 s in
      let fits : leb name_size (length name) ≡ false = ground arith in
      elim (null-cases p.1) [
        | inl (null', test) ↦
            let freed = free_virtual_address_space-held kernel held ok vmm p.0 set' in
            rw (fits, test)
              (inl (
                refl,
                ok.old_block address _
                    ∙ ap (erase (block address)) (
                        freed.1
                        ∙ ap (λ xs. erase (block vmm) (erase (directory vmm) xs))
                            (ok.no_page s null' ∙ holds)
                        ∙ erase-space vmm (block address ∷ base))
                    ∙ erase-block address base,
              ))
        | inr (given, test) ↦
            rw (fits, test)
              (inr (_, refl, set', ok.new_page s given ∙ ap (λ xs. heap_page p.1 ∷ xs) holds))
      ]

  alloc_task-held :
      (old : Task) (name : List ℕ) (s : S)
      → length name < name_size
      → IsAnswer (held s) (alloc_task kernel old (some name) s)
  unfolding alloc_task
  alloc_task-held old name s short =
      let b = kernel.kmalloc task_size s in
      elim (null-cases b.1) [
        | inl (null', test) ↦ rw test (inl (refl, ok.no_block task_size s null'))
        | inr (given, test) ↦ elim (alloc_virtual_address_space-held kernel held ok b.0) [
          | inl (no_space, same) ↦
              rw (test, no_space)
                (inl (
                  refl,
                  ok.old_block b.1 _
                      ∙ ap (erase (block b.1)) (same ∙ ok.new_block task_size s given)
                      ∙ erase-block b.1 (held s),
                ))
          | inr (space, holds) ↦
              let v = alloc_virtual_address_space kernel b.0 in
              let space_test : (v.1 == 0) ≡ false = ground (arith, space) in
              let rest = finish_task kernel old name b.1 v.1 v.0 in
              let failed : S × Outcome (Option Task) = (kernel.kfree b.1 v.0, done none) in
              subst (IsAnswer (held s))
                (sym (
                  if-false (b.0, done none) (if v.1 == 0 then failed else rest) test
                  ∙ if-false failed rest space_test))
                (finish_task-held old name b.1 v.1 v.0 (held s) short space (
                  holds
                  ∙ ap (λ xs. directory v.1 ∷ block v.1 ∷ xs) (ok.new_block task_size s given)))
        ]
      ]

  free_task-held :
      (t : Task) (s : S) (base : List Resource)
      → t.vmm ≢ 0
      → held s ≡ resources t base
      → ((free_task kernel (some t) s).1 ≡ success) × (held (free_task kernel (some t) s).0 ≡ base)
  unfolding free_task
  free_task-held t s base set' holds =
      let freed = free_virtual_address_space-held kernel held ok t.vmm s set' in
      rw (freed.0) (
        refl,
        ok.old_block t.address _
            ∙ ap (erase (block t.address)) (
                ok.old_page t.kernel_stack _
                ∙ ap (erase (heap_page t.kernel_stack))
                    (freed.1 ∙ ap (λ xs. erase (block t.vmm) (erase (directory t.vmm) xs)) holds))
            ∙ ap
                (λ xs.
                  erase (block t.address)
                    (erase (heap_page t.kernel_stack) (heap_page t.kernel_stack ∷ xs)))
                (erase-space t.vmm (block t.address ∷ base))
            ∙ ap (erase (block t.address)) (erase-page t.kernel_stack (block t.address ∷ base))
            ∙ erase-block t.address base,
      )

-- On any kernel, with a record of its calls, and for a name that fits the task with its terminator:
-- `alloc_task` either answers NULL and has handed back every block, page directory and heap page that it was
-- given, or it answers a task; `free_task` on this task then returns SUCCESS and has handed back all of them.
pub alloc_task-free_task :
    {S : Type 0} (kernel : Kernel S) (old : Task) (name : List ℕ) (s : S) (held : List Resource)
    → length name < name_size
    → let r = alloc_task (recorded kernel) old (some name) (s, held) in
      ((r.1 ≡ done none) × (r.0.1 ≡ held))
      ⊎ ((t : Task) × (r.1 ≡ done (some t))
          × ((free_task (recorded kernel) (some t) r.0).1 ≡ success)
          × ((free_task (recorded kernel) (some t) r.0).0.1 ≡ held))
alloc_task-free_task kernel old name s held short =
    let ok = recorded-IsLedger kernel in
    elim (alloc_task-held (recorded kernel) (λ t. t.1) ok old name (s, held) short) [
      | inl failed ↦ inl failed
      | inr (t, answer, set', holds) ↦
          let freed = free_task-held (recorded kernel) (λ t. t.1) ok t _ held set' holds in
          inr (t, answer, freed.0, freed.1)
    ]
