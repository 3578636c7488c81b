-- ===== src/VirtualMemory/Directory.antt =====
-- kernel/mm/virtual_mm_manager.c: a new page directory (`alloc_page_dir`) and the switch to an address space.
-- `alloc_virtual_address_space`, which calls it between `kmalloc` and `kfree`, is left out.
-- `virtual_address_space_t`, with the entries at `page_directory`.
use mike_os.Base.{
  ap, ℕ, zero, suc, ◌+◌, ◌-◌, ◌*◌, ◌/◌, ◌%◌, ◌<◌, ◌≡◌, inl, inr, refl, sym, subst, ◌∙◌, Option,
  none, some, arith, bit_or, if◌then◌else◌, write, ErrorCode, success, invalid_argument, Bool-cases,
  some-injective, ◌==◌, bit_or_fields, Outcome, Outcome-cases, done, done-injective, undefined,
}
use mike_os.Early.{kernel_pgd_entry_index, num_kernel_page_tables}
use mike_os.Kheap.{
  Kheap, address_to_directory_entry, alloc_kheap_pages, and_then, edit_entry_attributes,
  kheap_begin_address, kheap_get_physical_address, map_kheap_to_pgd, present_writable,
}

pub record VirtualSpace : Type 0 where
  pub page_directory : ℕ
  pub physical_pgd_address : ℕ
  pub entries : ℕ → ℕ

-- The loop that copies the kernel's page tables, from entry i over the entries left.
unfoldable pub copy_kernel : ℕ → ℕ → ℕ → (ℕ → ℕ) → ℕ → ℕ
unfolding edit_entry_attributes
copy_kernel kernel_page_tables i zero page_directory = page_directory
copy_kernel kernel_page_tables i (suc left) page_directory =
    copy_kernel kernel_page_tables (i + 1) left (
      write page_directory i (
        edit_entry_attributes (kernel_page_tables + (i - kernel_pgd_entry_index) * 4096)
          present_writable))

-- The entries that the page at `page_directory` gets.
unfoldable pub new_entries : ℕ → ℕ → ℕ → ℕ → ℕ
unfolding copy_kernel map_kheap_to_pgd edit_entry_attributes
new_entries kernel_page_tables kheap_page_tables physical =
    let kernel =
      copy_kernel kernel_page_tables kernel_pgd_entry_index num_kernel_page_tables (λ i. 0) in
    let mapped : ℕ → ℕ = elim (map_kheap_to_pgd kheap_page_tables (some kernel)) [
      | none ↦ kernel
      | some d ↦ d
    ] in
    write mapped 1023 (edit_entry_attributes physical present_writable)

-- What `alloc_page_dir` makes of a heap page; `none` is FAILURE.
unfoldable pub new_space : ℕ → ℕ → ℕ → Kheap → Option VirtualSpace
unfolding kheap_get_physical_address new_entries
new_space kernel_page_tables kheap_page_tables page_directory h =
    if page_directory == 0
    then none
    else some (record {
      page_directory = page_directory;
      physical_pgd_address = kheap_get_physical_address page_directory h;
      entries =
          new_entries kernel_page_tables kheap_page_tables
            (kheap_get_physical_address page_directory h);
    })

-- The addresses of the two arrays of page tables are the linker's.
unfoldable pub alloc_page_dir : ℕ → ℕ → ℕ → Kheap → Outcome (Kheap × Option VirtualSpace)
unfolding alloc_kheap_pages new_space
alloc_page_dir kernel_end kernel_page_tables kheap_page_tables h =
    and_then (alloc_kheap_pages kernel_end 1 h)
      λ (h', page_directory). (h', new_space kernel_page_tables kheap_page_tables page_directory h')

-- The new value of CR3, and the code; `none` is NULL.
unfoldable pub switch_virtual_address_space : Option VirtualSpace → ℕ → ℕ × ErrorCode
switch_virtual_address_space none cr3 = (cr3, invalid_argument)
switch_virtual_address_space (some vmm) cr3 =
    if vmm.page_directory == 0 then (cr3, invalid_argument) else (vmm.physical_pgd_address, success)

-- What a page directory must hold: nothing for the user, the kernel's and the heap's tables, itself.
pub record IsDirectory (kernel_page_tables kheap_page_tables : ℕ) (space : VirtualSpace)
    : Type 0 where
  pub user : (i : ℕ) → i < kernel_pgd_entry_index → space.entries i ≡ 0
  pub kernel : space.entries kernel_pgd_entry_index ≡ kernel_page_tables + present_writable
  pub kernel_end :
      space.entries (kernel_pgd_entry_index + 1) ≡ kernel_page_tables + 4096 + present_writable
  pub heap :
      space.entries (address_to_directory_entry kheap_begin_address)
      ≡ kheap_page_tables + present_writable
  pub itself : space.entries 1023 ≡ space.physical_pgd_address + present_writable

flagged : (page : ℕ) → page % 4 ≡ 0 → edit_entry_attributes page present_writable ≡ page + 3
unfolding edit_entry_attributes
flagged page aligned =
    let at : page ≡ page / 4 * 4 = omega arith in
    ap (λ (t : ℕ). bit_or t 3) at ∙ bit_or_fields 2 (page / 4) 3 (omega arith) ∙ omega arith

new_entries-IsDirectory :
    (kernel_page_tables kheap_page_tables page_directory physical : ℕ)
    → kernel_page_tables % 4096 ≡ 0
    → kheap_page_tables % 4096 ≡ 0
    → physical % 4 ≡ 0
    → IsDirectory kernel_page_tables kheap_page_tables (record {
      page_directory = page_directory;
      physical_pgd_address = physical;
      entries = new_entries kernel_page_tables kheap_page_tables physical;
    })
unfolding new_entries copy_kernel map_kheap_to_pgd address_to_directory_entry
new_entries-IsDirectory kernel_page_tables kheap_page_tables page_directory physical aligned
      aligned' aligned'' =
    record {
      user = λ i low. ground (arith, low);
      kernel = flagged (kernel_page_tables + 0) (omega arith) ∙ omega arith;
      kernel_end = flagged (kernel_page_tables + 4096) (omega arith);
      heap = flagged kheap_page_tables (omega arith);
      itself = flagged physical aligned'';
    }

kheap_get_physical_address-aligned :
    (address : ℕ) (h : Kheap) → kheap_get_physical_address address h % 4 ≡ 0
unfolding kheap_get_physical_address
kheap_get_physical_address-aligned address h = ground arith

new_space-IsDirectory :
    (kernel_page_tables kheap_page_tables page_directory : ℕ) (h : Kheap) (space : VirtualSpace)
    → kernel_page_tables % 4096 ≡ 0
    → kheap_page_tables % 4096 ≡ 0
    → new_space kernel_page_tables kheap_page_tables page_directory h ≡ some space
    → IsDirectory kernel_page_tables kheap_page_tables space
unfolding new_space
new_space-IsDirectory kernel_page_tables kheap_page_tables page_directory h space aligned aligned'
      made =
    elim (Bool-cases (page_directory == 0)) [
      | inl null ↦
          let nothing : new_space kernel_page_tables kheap_page_tables page_directory h ≡ none =
            rw (null, new_space) refl in
          let clash : none ≡ some space = sym nothing ∙ made in absurd cc
      | inr page ↦
          let given =
            new_entries-IsDirectory kernel_page_tables kheap_page_tables page_directory
              (kheap_get_physical_address page_directory h) aligned aligned'
              (kheap_get_physical_address-aligned page_directory h) in
          subst (IsDirectory kernel_page_tables kheap_page_tables)
            (some-injective (sym (rw (page, new_space) refl) ∙ made)) given
    ]

-- Where the two arrays of page tables begin at a page, the directory that `alloc_page_dir` returns has an empty user half, the kernel's and the heap's page
-- tables, and itself as its last entry, at the physical address that it reports.
pub alloc_page_dir-IsDirectory :
    (kernel_end kernel_page_tables kheap_page_tables : ℕ) (h h' : Kheap) (space : VirtualSpace)
    → kernel_page_tables % 4096 ≡ 0
    → kheap_page_tables % 4096 ≡ 0
    → alloc_page_dir kernel_end kernel_page_tables kheap_page_tables h ≡ done (h', some space)
    → IsDirectory kernel_page_tables kheap_page_tables space
unfolding alloc_page_dir
alloc_page_dir-IsDirectory kernel_end kernel_page_tables kheap_page_tables h h' space aligned
      aligned' run =
    elim (Outcome-cases (alloc_kheap_pages kernel_end 1 h)) [
      | inl stuck ↦
          let nothing : alloc_page_dir kernel_end kernel_page_tables kheap_page_tables h
              ≡ undefined =
            rw (stuck, alloc_page_dir) refl in
          let clash : undefined ≡ done (h', some space) = sym nothing ∙ run in absurd cc
      | inr ((h1, page_directory), got) ↦
          let made : alloc_page_dir kernel_end kernel_page_tables kheap_page_tables h
              ≡ done (h1, new_space kernel_page_tables kheap_page_tables page_directory h1) =
            rw (got, alloc_page_dir) refl in
          new_space-IsDirectory kernel_page_tables kheap_page_tables page_directory h1 space aligned
            aligned' (ap (λ r. r.1) (done-injective (sym made ∙ run)))
    ]
