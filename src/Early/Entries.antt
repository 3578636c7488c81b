-- ===== src/Early/Entries.antt =====
-- The words that the loops of kernel/mm/early_paging_manager.c write.
use mike_os.Base.{
  ℕ, zero, suc, ◌+◌, ◌-◌, ◌*◌, ◌/◌, ◌%◌, ◌^◌, ◌≤◌, ◌<◌, ◌≡◌, ◌⊎◌, inl, inr, refl, arith, u32,
  bit_or, write, bit_or_fields, ◌∙◌, ap,
}
use mike_os.Early.{
  entries_loop, tables_loop, create_kernel_page_tables, directory_loop, map_lower_mem,
  map_kernel_memory, init_recursive_page_directory, paging_init, edit_entry_attributes,
}

at_or_after : (j i : ℕ) → j ≤ i → (i ≡ j) ⊎ (j + 1 ≤ i)
at_or_after j i l = ground arith

or_3 : (page : ℕ) → page % 4096 ≡ 0 → bit_or page 3 ≡ page + 3
or_3 page h = omega (
  arith,
  ap (λ (t : ℕ). bit_or t 3) (page_split page h) ∙ bit_or_fields 12 (page / 4096) 3 (omega arith),
)
  where
    page_split : (page : ℕ) → page % 4096 ≡ 0 → page ≡ page / 4096 * 4096
    page_split page h = omega arith

table_of :
    (p : ℕ)
    → p < 2048
    → ((p / 1024 ≡ 0) × (p % 1024 ≡ p)) ⊎ ((p / 1024 ≡ 1) × (p % 1024 ≡ p - 1024) × (1024 ≤ p))
table_of p small = ground arith

-- Entry i of the loop maps the i-th page from `current`, present and writable; no other word changes.
entries_loop_lem :
    (pgt j n current : ℕ) (m : ℕ → ℕ)
    → current % 4096 ≡ 0
    → current + 4096 * n < 2 ^ 32
    → ((entries_loop pgt j n current m).1 ≡ current + 4096 * n)
      × ((i : ℕ)
          → j ≤ i
          → i < j + n
          → (entries_loop pgt j n current m).0 (pgt + 4 * i) ≡ current + 4096 * (i - j) + 3)
      × ((a : ℕ)
          → (a < pgt + 4 * j) ⊎ (pgt + 4 * (j + n) ≤ a)
          → (entries_loop pgt j n current m).0 a ≡ m a)
unfolding entries_loop
entries_loop_lem pgt j zero current m page bound =
    (omega arith, λ i l u. absurd (omega arith), λ a out. refl)
entries_loop_lem pgt j (suc n) current m page bound =
    let next : u32 (current + 4096) ≡ current + 4096 = omega arith in
    let stored = or_3 current page in
    let m1 =
      write (write m (pgt + 4 * j) current) (pgt + 4 * j)
        (bit_or (write m (pgt + 4 * j) current (pgt + 4 * j)) 3) in
    let later =
      entries_loop_lem pgt (j + 1) n (u32 (current + 4096)) m1 (omega arith) (omega arith) in
    (
      omega (arith, later.0),
      λ i l u. elim (at_or_after j i l) [
        | inl here ↦ rw here (later.2 (pgt + 4 * j) (omega arith) ∙ ground (arith, stored))
        | inr after ↦ omega (arith, later.1 i after (omega arith))
      ],
      λ a out. later.2 a (omega arith) ∙ ground arith,
    )

module _ (kernel_page_tables init_page_directory : ℕ) where
  -- Page number p of the identity map is entry p % 1024 of table p / 1024.
  create_kernel_page_tables_lem :
      (m : ℕ → ℕ)
      → ((p : ℕ)
          → p < 2048
          → create_kernel_page_tables kernel_page_tables init_page_directory m
              (kernel_page_tables + 4096 * (p / 1024) + 4 * (p % 1024))
            ≡ 4096 * p + 3)
        × ((a : ℕ)
            → (a < kernel_page_tables) ⊎ (kernel_page_tables + 8192 ≤ a)
            → create_kernel_page_tables kernel_page_tables init_page_directory m a ≡ m a)
  unfolding create_kernel_page_tables tables_loop
  create_kernel_page_tables_lem m =
      let first =
        entries_loop_lem (kernel_page_tables + 4096 * 0) 0 1024 0 m (omega arith) (omega arith) in
      let m1 = (entries_loop (kernel_page_tables + 4096 * 0) 0 1024 0 m).0 in
      let next = (entries_loop (kernel_page_tables + 4096 * 0) 0 1024 0 m).1 in
      let second =
        entries_loop_lem (kernel_page_tables + 4096 * 1) 0 1024 next m1 (omega (arith, first.0))
          (omega (arith, first.0)) in
      (
        λ p small. elim (table_of p small) [
          | inl low ↦
              rw (low.0, low.1)
                (second.2 (kernel_page_tables + 4096 * 0 + 4 * p) (omega (arith, low.1))
                  ∙ first.1 p (omega arith) (omega (arith, low.1))
                  ∙ omega arith)
          | inr high ↦
              rw (high.0, high.1)
                (second.1 (p - 1024) (omega arith) (omega (arith, high.1))
                  ∙ omega (arith, first.0, high.2))
        ],
        λ a out. second.2 a (omega arith) ∙ first.2 a (omega arith),
      )

  -- Table t stands, present and writable, in entry `first + t` of the directory.
  directory_loop_lem :
      (first t n : ℕ) (m : ℕ → ℕ)
      → kernel_page_tables % 4096 ≡ 0
      → 0 < init_page_directory
      → ((i : ℕ)
          → t ≤ i
          → i < t + n
          → directory_loop kernel_page_tables init_page_directory first t n m
              (init_page_directory + 4 * (first + i))
            ≡ kernel_page_tables + 4096 * i + 3)
        × ((a : ℕ)
            → (a < init_page_directory + 4 * (first + t))
              ⊎ (init_page_directory + 4 * (first + t + n) ≤ a)
            → directory_loop kernel_page_tables init_page_directory first t n m a ≡ m a)
  unfolding directory_loop edit_entry_attributes
  directory_loop_lem first t zero m aligned nonzero = (λ i l u. absurd (omega arith), λ a out. refl)
  directory_loop_lem first t (suc n) m aligned nonzero =
      let stored = or_3 (kernel_page_tables + 4096 * t) (omega arith) in
      let entry = init_page_directory + 4 * (first + t) in
      let m1 =
        edit_entry_attributes entry (bit_or 2 1) (write m entry (kernel_page_tables + 4096 * t)) in
      let later = directory_loop_lem first (t + 1) n m1 aligned nonzero in
      (
        λ i l u. elim (at_or_after t i l) [
          | inl here ↦ rw here (
              later.1 (init_page_directory + 4 * (first + t)) (omega arith)
              ∙ ground (arith, stored))
          | inr after ↦ later.0 i after (omega arith)
        ],
        λ a out. later.1 a (omega arith) ∙ ground arith,
      )

  -- After `paging_init`: the words of the page tables, and those of the page directory.
  pub paging_init_lem :
      (m : ℕ → ℕ)
      → kernel_page_tables % 4096 ≡ 0
      → init_page_directory % 4096 ≡ 0
      → 0 < init_page_directory
      → (kernel_page_tables + 8192 ≤ init_page_directory)
        ⊎ (init_page_directory + 4096 ≤ kernel_page_tables)
      → let after = paging_init kernel_page_tables init_page_directory m in
        ((p : ℕ)
          → p < 2048
          → after (kernel_page_tables + 4096 * (p / 1024) + 4 * (p % 1024)) ≡ 4096 * p + 3)
        × ((t : ℕ)
            → t < 2
            → after (init_page_directory + 4 * t) ≡ kernel_page_tables + 4096 * t + 3)
        × ((t : ℕ)
            → t < 2
            → after (init_page_directory + 4 * (768 + t)) ≡ kernel_page_tables + 4096 * t + 3)
        × (after (init_page_directory + 4 * 1023) ≡ init_page_directory + 3)
        × ((d : ℕ)
            → d < 1023
            → 2 ≤ d
            → (d < 768) ⊎ (770 ≤ d)
            → after (init_page_directory + 4 * d) ≡ m (init_page_directory + 4 * d))
  unfolding paging_init init_recursive_page_directory map_lower_mem map_kernel_memory
      edit_entry_attributes
  paging_init_lem m aligned aligned' nonzero apart =
      let m1 = create_kernel_page_tables kernel_page_tables init_page_directory m in
      let m2 = map_lower_mem kernel_page_tables init_page_directory m1 in
      let tables = create_kernel_page_tables_lem m in
      let lower = directory_loop_lem 0 0 2 m1 aligned nonzero in
      let upper = directory_loop_lem 768 0 2 m2 aligned nonzero in
      let stored = or_3 init_page_directory aligned' in
      (
        λ p small. ground (
          arith,
          tables.0 p small,
          lower.1 (kernel_page_tables + 4096 * (p / 1024) + 4 * (p % 1024)),
          upper.1 (kernel_page_tables + 4096 * (p / 1024) + 4 * (p % 1024)),
        ),
        λ t small. ground (arith, lower.0 t, upper.1 (init_page_directory + 4 * t)),
        λ t small. ground (arith, upper.0 t),
        ground (arith, stored),
        λ d small two out. ground (
          arith,
          tables.1 (init_page_directory + 4 * d),
          lower.1 (init_page_directory + 4 * d),
          upper.1 (init_page_directory + 4 * d),
        ),
      )
