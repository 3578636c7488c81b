-- ===== src/Task/Ledger.antt =====
-- What kernel/multitask/task.c is given by the allocators and hands back to them: a record of the calls
-- beside the state of any kernel.
use mike_os.Base.{
  ℕ, zero, suc, ◌≡◌, ◌≢◌, ◌⊎◌, inl, inr, refl, ap, ◌∙◌, Bool, true, false, List, [], ◌∷◌, arith,
  if◌then◌else◌, success, is_success, Bool-cases, ◌==◌,
}
use mike_os.Task.{
  Kernel, address_space_size, alloc_virtual_address_space, free_virtual_address_space,
}

-- A block of `kmalloc`, the page directory of an address space, or one page of the kernel's heap.
pub data Resource : Type 0 where
  block directory heap_page : ℕ → Resource

abbrev pub same_resource : Resource → Resource → Bool
same_resource (block a) (block b) = a == b
same_resource (directory a) (directory b) = a == b
same_resource (heap_page a) (heap_page b) = a == b
same_resource _ _ = false

-- The list without the first occurrence.
abbrev pub erase : Resource → List Resource → List Resource
erase r [] = []
erase r (x ∷ xs) = if same_resource r x then xs else x ∷ erase r xs

-- `held` accounts for what the calls of the parts of the kernel answer and are handed.
pub record IsLedger {S : Type 0} (kernel : Kernel S) (held : S → List Resource) : Type 0 where
  pub no_block : (n : ℕ) (s : S) → (kernel.kmalloc n s).1 ≡ 0 → held (kernel.kmalloc n s).0 ≡ held s
  pub new_block :
      (n : ℕ) (s : S)
      → (kernel.kmalloc n s).1 ≢ 0
      → held (kernel.kmalloc n s).0 ≡ block (kernel.kmalloc n s).1 ∷ held s
  pub old_block : (a : ℕ) (s : S) → held (kernel.kfree a s) ≡ erase (block a) (held s)
  pub new_directory :
      (vmm : ℕ) (s : S)
      → is_success (kernel.alloc_page_dir vmm s).1 ≡ true
      → held (kernel.alloc_page_dir vmm s).0 ≡ directory vmm ∷ held s
  pub no_directory :
      (vmm : ℕ) (s : S)
      → is_success (kernel.alloc_page_dir vmm s).1 ≡ false
      → held (kernel.alloc_page_dir vmm s).0 ≡ held s
  pub user_pages : (vmm : ℕ) (s : S) → held (kernel.free_user_pages vmm s) ≡ held s
  pub old_directory :
      (vmm : ℕ) (s : S) → held (kernel.free_page_directory vmm s) ≡ erase (directory vmm) (held s)
  pub no_page :
      (s : S)
      → (kernel.alloc_kheap_pages 1 s).1 ≡ 0
      → held (kernel.alloc_kheap_pages 1 s).0 ≡ held s
  pub new_page :
      (s : S)
      → (kernel.alloc_kheap_pages 1 s).1 ≢ 0
      → held (kernel.alloc_kheap_pages 1 s).0 ≡ heap_page (kernel.alloc_kheap_pages 1 s).1 ∷ held s
  pub old_page :
      (a : ℕ) (s : S) → held (kernel.free_kheap_pages a 1 s) ≡ erase (heap_page a) (held s)

-- The kernel with a record of its calls: an answer that is not NULL, and a page directory that was made, are
-- entered, and what is handed to `kfree`, `free_kheap_pages` and the freeing of a page directory is struck
-- out. What those functions then do with it is theirs.
unfoldable pub recorded : {S : Type 0} → Kernel S → Kernel (S × List Resource)
recorded kernel = record {
  kmalloc = λ n s.
      let r = kernel.kmalloc n s.0 in ((r.0, if r.1 == 0 then s.1 else block r.1 ∷ s.1), r.1);
  kfree = λ a s. (kernel.kfree a s.0, erase (block a) s.1);
  alloc_page_dir = λ vmm s.
      let r = kernel.alloc_page_dir vmm s.0 in
      ((r.0, if is_success r.1 then directory vmm ∷ s.1 else s.1), r.1);
  free_user_pages = λ vmm s. (kernel.free_user_pages vmm s.0, s.1);
  free_page_directory = λ vmm s. (kernel.free_page_directory vmm s.0, erase (directory vmm) s.1);
  alloc_kheap_pages = λ n s.
      let r = kernel.alloc_kheap_pages n s.0 in
      ((r.0, if r.1 == 0 then s.1 else heap_page r.1 ∷ s.1), r.1);
  free_kheap_pages = λ a n s. (kernel.free_kheap_pages a n s.0, erase (heap_page a) s.1);
}

pub recorded-IsLedger : {S : Type 0} (kernel : Kernel S) → IsLedger (recorded kernel) (λ s. s.1)
unfolding recorded
recorded-IsLedger kernel = record {
  no_block = λ n s e. ground (arith, e);
  new_block = λ n s e. ground (arith, e);
  old_block = λ a s. refl;
  new_directory = λ vmm s e. rw e refl;
  no_directory = λ vmm s e. rw e refl;
  user_pages = λ vmm s. refl;
  old_directory = λ vmm s. refl;
  no_page = λ s e. ground (arith, e);
  new_page = λ s e. ground (arith, e);
  old_page = λ a s. refl;
}

pub same_number : (a : ℕ) → (a == a) ≡ true
same_number a = ground arith

pub if-false : {A : Type 0} {c : Bool} (x y : A) → c ≡ false → (if c then x else y) ≡ y
if-false x y e = rw e refl

pub null-cases : (a : ℕ) → ((a ≡ 0) × ((a == 0) ≡ true)) ⊎ ((a ≢ 0) × ((a == 0) ≡ false))
null-cases zero = inl (refl, refl)
null-cases (suc a) = inr (λ e. absurd (omega arith), ground arith)

module _ {S : Type 0} (kernel : Kernel S) (held : S → List Resource)
    (ok : IsLedger kernel held) where
  pub alloc_virtual_address_space-held :
      (s : S)
      → let r = alloc_virtual_address_space kernel s in
        ((r.1 ≡ 0) × (held r.0 ≡ held s))
        ⊎ ((r.1 ≢ 0) × (held r.0 ≡ directory r.1 ∷ block r.1 ∷ held s))
  unfolding alloc_virtual_address_space
  alloc_virtual_address_space-held s =
      let b = kernel.kmalloc address_space_size s in
      elim (null-cases b.1) [
        | inl (null', test) ↦ rw test (inl (refl, ok.no_block address_space_size s null'))
        | inr (given, test) ↦
            let d = kernel.alloc_page_dir b.1 b.0 in
            elim (Bool-cases (is_success d.1)) [
              | inl made ↦
                  rw (test, made)
                    (inr (
                      given,
                      ok.new_directory b.1 b.0 made
                          ∙ ap (λ xs. directory b.1 ∷ xs) (ok.new_block address_space_size s given),
                    ))
              | inr failed ↦
                  rw (test, failed)
                    (inl (
                      refl,
                      ok.old_block b.1 d.0
                          ∙ ap (erase (block b.1)) (
                              ok.no_directory b.1 b.0 failed
                              ∙ ok.new_block address_space_size s given)
                          ∙ rw (same_number b.1) refl,
                    ))
            ]
      ]

  pub free_virtual_address_space-held :
      (vmm : ℕ) (s : S)
      → vmm ≢ 0
      → ((free_virtual_address_space kernel vmm s).1 ≡ success)
        × (held (free_virtual_address_space kernel vmm s).0
            ≡ erase (block vmm) (erase (directory vmm) (held s)))
  unfolding free_virtual_address_space
  free_virtual_address_space-held vmm s set' =
      let test : (vmm == 0) ≡ false = ground (arith, set') in
      rw test (
        refl,
        ok.old_block vmm _
            ∙ ap (erase (block vmm))
                (ok.old_directory vmm _ ∙ ap (erase (directory vmm)) (ok.user_pages vmm s)),
      )
