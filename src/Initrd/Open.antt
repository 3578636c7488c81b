-- ===== src/Initrd/Open.antt =====
-- Finding a file of the initial ramdisk by its name (kernel/fs/initrd.c).
use mike_os.Base.{
  ℕ, zero, suc, ◌+◌, ◌*◌, ◌≤◌, ◌<◌, ◌≡◌, ◌≢◌, ◌⊎◌, inl, inr, refl, sym, arith, none, some, List,
  length, ap, ◌∙◌, Bool-cases, true, false,
}
use mike_os.Base.Int.{ℤ, pos, negsuc}
use mike_os.Memory.{Mem}
use mike_os.Strings.{strcmp}
use mike_os.Strings.Texts.{IsText}
use mike_os.Strings.Compare.{AllBytes, strcmp-zero_iff, strcmp-compare_texts, compare_texts}
use mike_os.Initrd.{inodes_loop, initrd_search_inode_table, is_zero, inode_size, name_offset}

-- A ramdisk's table of n inodes, whose names are texts shorter than the fuel.
pub record IsTable (fuel : ℕ) (m : Mem) (table n : ℕ) (names : ℕ → List ℕ) : Type 0 where
  pub text : (i : ℕ) → i < n → IsText m (table + inode_size * i + name_offset) (names i)
  pub bytes : (i : ℕ) → i < n → AllBytes (names i)
  pub short : (i : ℕ) → i < n → length (names i) < fuel

pub is_zero-pos : (z : ℤ) → is_zero z ≡ true → z ≡ pos 0
is_zero-pos (pos n) h = ground arith
is_zero-pos (negsuc n) h = ground arith

module _ (fuel : ℕ) (m : Mem) (table n path : ℕ) (names : ℕ → List ℕ) (name : List ℕ)
    (ok : IsTable fuel m table n names) (path_text : IsText m path name)
    (path_bytes : AllBytes name) where
  same-here :
      (i : ℕ)
      → i < n
      → names i ≡ name
      → strcmp fuel m (table + inode_size * i + name_offset) path ≡ some (pos 0)
  same-here i small same =
      (strcmp-zero_iff fuel m _ path (names i) name (ok.bytes i small) path_bytes (ok.text i small)
          path_text (ok.short i small)).1
        same

  other-here :
      (i : ℕ)
      → i < n
      → names i ≢ name
      → (z : ℤ) × (strcmp fuel m (table + inode_size * i + name_offset) path ≡ some z)
        × (is_zero z ≡ false)
  other-here i small differs =
      let value =
        strcmp-compare_texts fuel m _ path (names i) name (ok.text i small) path_text
          (ok.short i small) in
      (
        compare_texts (names i) name,
        value,
        elim (Bool-cases (is_zero (compare_texts (names i) name))) [
          | inl yes' ↦ absurd (
              differs (
                (strcmp-zero_iff fuel m _ path (names i) name (ok.bytes i small) path_bytes
                    (ok.text i small) path_text (ok.short i small)).0
                  (value ∙ ap some (is_zero-pos _ yes'))))
          | inr no' ↦ no'
        ],
      )

  inodes_loop-found :
      (i left k : ℕ)
      → i + left ≡ n
      → i ≤ k
      → k < n
      → names k ≡ name
      → ((j : ℕ) → j < k → names j ≢ name)
      → inodes_loop fuel m table path i left ≡ some (some (table + inode_size * k))
  unfolding inodes_loop
  inodes_loop-found i zero k total l u same first = absurd (omega arith)
  inodes_loop-found i (suc left) k total l u same first = elim (split_at i k l) [
    | inl here ↦
        rw (here, same-here i (omega arith) (ap names (sym here) ∙ same), inodes_loop)
          (λ _. some (some (table + inode_size * i)))
    | inr later ↦
        let other = other-here i (omega arith) (first i later) in
        rw (other.1, other.2, inodes_loop)
          (inodes_loop-found (i + 1) left k (omega arith) (omega arith) u same first)
  ]
    where
      split_at : (i k : ℕ) → i ≤ k → (k ≡ i) ⊎ (i < k)
      split_at i k l = ground arith

  inodes_loop-absent :
      (i left : ℕ)
      → i + left ≡ n
      → ((j : ℕ) → j < n → names j ≢ name)
      → inodes_loop fuel m table path i left ≡ some none
  unfolding inodes_loop
  inodes_loop-absent i zero total absent = refl
  inodes_loop-absent i (suc left) total absent =
      let other = other-here i (omega arith) (absent i (omega arith)) in
      rw (other.1, other.2, inodes_loop) (inodes_loop-absent (i + 1) left (omega arith) absent)

  -- In a table of inodes whose names are texts of bytes, the search gives the address of the first
  -- inode with the name that is asked for, and NULL if there is none.
  pub initrd_search_inode_table-first :
      ((k : ℕ)
        → k < n
        → names k ≡ name
        → ((j : ℕ) → j < k → names j ≢ name)
        → initrd_search_inode_table fuel m table n path ≡ some (some (table + inode_size * k)))
      × (((j : ℕ) → j < n → names j ≢ name)
          → initrd_search_inode_table fuel m table n path ≡ some none)
  unfolding initrd_search_inode_table
  initrd_search_inode_table-first = (
    λ k small same first. inodes_loop-found 0 n k (omega arith) (omega arith) small same first,
    λ absent. inodes_loop-absent 0 n (omega arith) absent,
  )
