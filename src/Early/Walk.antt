-- ===== src/Early/Walk.antt =====
-- The address space that the processor sees after `paging_init` (kernel/mm/early_paging_manager.c).
use mike_os.Base.{
  ℕ, ◌+◌, ◌*◌, ◌/◌, ◌%◌, ◌^◌, ◌≤◌, ◌<◌, ◌≡◌, ◌⊎◌, arith, if◌then◌else◌, ◌==◌, Option, some, none,
  ap, ◌∙◌,
}
use mike_os.Early.{paging_init}
use mike_os.Early.Entries.{paging_init_lem}

-- The processor's walk of the two levels: a word is an address of a page with the present bit.
unfoldable pub translate : (ℕ → ℕ) → ℕ → ℕ → Option ℕ
translate m directory address =
    let pde = m (directory + 4 * (address / 2 ^ 22)) in
    let pte = m (pde / 4096 * 4096 + 4 * (address / 2 ^ 12 % 1024)) in
    if pde % 2 == 0
    then none
    else (if pte % 2 == 0 then none else some (pte / 4096 * 4096 + address % 4096))

-- One walk, of an address in entry d of a directory and entry i of the table that stands there.
walk :
    (m : ℕ → ℕ) (directory address table page d i : ℕ)
    → address / 2 ^ 22 ≡ d
    → address / 2 ^ 12 % 1024 ≡ i
    → table % 4096 ≡ 0
    → page % 4096 ≡ 0
    → m (directory + 4 * d) ≡ table + 3
    → m (table + 4 * i) ≡ page + 3
    → translate m directory address ≡ some (page + address % 4096)
unfolding translate
walk m directory address table page d i high low aligned aligned' pde pte =
    let base : (table + 3) / 4096 * 4096 ≡ table = omega arith in
    rw (high, low, pde, base, pte) (ground arith)

not_present :
    (m : ℕ → ℕ) (directory address : ℕ)
    → m (directory + 4 * (address / 2 ^ 22)) ≡ 0
    → translate m directory address ≡ none
unfolding translate
not_present m directory address pde = rw pde (λ _. none)

-- Of page tables and a directory in aligned arrays that do not overlap: after `paging_init`, the first
-- 8 MB are mapped to themselves and so are those from 0xC0000000; the last page of addresses is the
-- directory; and an address of another entry of the directory, with a zero word there before, is
-- not mapped.
pub paging_init-translate :
    (kernel_page_tables init_page_directory : ℕ) (m : ℕ → ℕ)
    → kernel_page_tables % 4096 ≡ 0
    → init_page_directory % 4096 ≡ 0
    → 0 < init_page_directory
    → (kernel_page_tables + 8192 ≤ init_page_directory)
      ⊎ (init_page_directory + 4096 ≤ kernel_page_tables)
    → let walk_from =
        translate (paging_init kernel_page_tables init_page_directory m) init_page_directory in
      ((address : ℕ) → address < 2 ^ 23 → walk_from address ≡ some address)
      × ((address : ℕ) → address < 2 ^ 23 → walk_from (0xC0000000 + address) ≡ some address)
      × ((offset : ℕ)
          → offset < 4096
          → walk_from (0xFFFFF000 + offset) ≡ some (init_page_directory + offset))
      × ((address : ℕ)
          → 2 ^ 23 ≤ address
          → address < 0xFFC00000
          → (address < 0xC0000000) ⊎ (0xC0800000 ≤ address)
          → m (init_page_directory + 4 * (address / 2 ^ 22)) ≡ 0
          → walk_from address ≡ none)
paging_init-translate tables directory m aligned aligned' nonzero apart =
    let after = paging_init tables directory m in
    let words = paging_init_lem tables directory m aligned aligned' nonzero apart in
    (
      λ address small.
          let p = address / 4096 in
          walk after directory address (tables + 4096 * (p / 1024)) (4096 * p) (p / 1024) (p % 1024)
            (omega arith) (omega arith) (omega arith) (omega arith)
            (words.1 (p / 1024) (omega arith)) (words.0 p (omega arith))
          ∙ ap some (omega arith),
      λ address small.
          let p = address / 4096 in
          walk after directory (0xC0000000 + address) (tables + 4096 * (p / 1024)) (4096 * p)
            (768 + p / 1024) (p % 1024) (omega arith) (omega arith) (omega arith) (omega arith)
            (words.2 (p / 1024) (omega arith)) (words.0 p (omega arith))
          ∙ ap some (omega arith),
      λ offset small.
          walk after directory (0xFFFFF000 + offset) directory directory 1023 1023 (omega arith)
            (omega arith) aligned' aligned' words.3 words.3
          ∙ ap some (omega arith),
      λ address low high out zero_word.
          not_present after directory address
            (words.4 (address / 2 ^ 22) (omega arith) (omega arith) (omega arith) ∙ zero_word),
    )
