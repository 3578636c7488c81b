-- ===== src/FileOpen/Mode.antt =====
-- How `file_open` (kernel/fs/file.c) comes to the mode "r".
use mike_os.Base.{
  ℕ, suc, ◌+◌, ◌≤◌, ◌≡◌, ◌⊎◌, refl, Option, some, List, [], ◌∷◌, arith, if◌then◌else◌, write, ◌==◌,
}
use mike_os.Memory.{Mem, memcpy}
use mike_os.Memory.Copy.{memcpy_lem}
use mike_os.Strings.{strncmp}
use mike_os.Strings.Texts.{IsText, strlen-length}
use mike_os.Strings.Compare.{AllBytes, strcmp-zero_iff}
use mike_os.File.{FsNode}
use mike_os.Vfs.{Run, Vfs}
use mike_os.FileOpen.{file_open, modes_loop, open_with}
use mike_os.FileOpen.Layout.{Agrees, Apart}

-- The text "r".
abbrev pub r_text : List ℕ
r_text = 114 ∷ []

r_bytes : AllBytes r_text
r_bytes = (omega arith, tt)

-- The memory when the mode "r" is found: it is copied to `mode_buf`, and `strncmp` has written the byte 0 behind both
-- texts that it compared.
abbrev pub scratch : ℕ → ℕ → ℕ → Mem → Mem
scratch mode_buf literal mode m =
    write (write (write (memcpy mode_buf mode 1 m) (mode_buf + 1) 0) (mode_buf + 2) 0) (literal + 2)
      0

memcpy-one :
    (dst src : ℕ) (m : Mem) (a : ℕ) → memcpy dst src 1 m a ≡ (if a == dst then m src else m a)
memcpy-one dst src m a =
    let either : (dst ≤ src) ⊎ (src + 1 ≤ dst) = ground arith in
    ground (arith, memcpy_lem dst src 1 m either a)

pub scratch-outside :
    (mode_buf literal mode : ℕ) (m : Mem) (lo hi : ℕ)
    → Apart mode_buf 3 lo hi
    → Apart (literal + 2) 1 lo hi
    → Agrees lo hi m (scratch mode_buf literal mode m)
scratch-outside mode_buf literal mode m lo hi buf lit a above below =
    ground (arith, memcpy-one mode_buf mode m a)

scratch-IsText :
    (mode_buf literal mode : ℕ) (m : Mem)
    → IsText m mode r_text
    → IsText m literal r_text
    → Apart mode_buf 3 literal (literal + 3)
    → IsText (scratch mode_buf literal mode m) mode_buf r_text
      × IsText (scratch mode_buf literal mode m) literal r_text
scratch-IsText mode_buf literal mode m text literal_text apart =
    let copied = memcpy-one mode_buf mode m in
    (
      (ground (arith, copied mode_buf), λ e. absurd (omega arith), ground arith),
      (
        ground (arith, copied literal),
        λ e. absurd (omega arith),
        ground (arith, copied (literal + 1)),
      ),
    )

module _ (b : ℕ) (possible_mode : ℕ → ℕ) (mode_buf : ℕ)
    (open_node : Option ℕ → Vfs → Mem → Run (Vfs × Mem × Option FsNode)) where
  -- With the mode "r", `file_open` opens the path at the first entry of the table.
  pub file_open-r :
      (fresh path mode : ℕ) (s : Vfs) (m : Mem)
      → IsText m mode r_text
      → IsText m (possible_mode 0) r_text
      → Apart mode_buf 3 (possible_mode 0) (possible_mode 0 + 3)
      → file_open (suc (suc b)) possible_mode mode_buf open_node fresh (some path) mode s m
        ≡ open_with
            (suc (suc b))
            possible_mode
            mode_buf
            open_node
            fresh
            path
            0
            s
            (scratch mode_buf (possible_mode 0) mode m)
  unfolding file_open modes_loop strncmp
  file_open-r fresh path mode s m text literal_text apart =
      let texts = scratch-IsText mode_buf (possible_mode 0) mode m text literal_text apart in
      let same =
        (strcmp-zero_iff (suc (suc b)) (scratch mode_buf (possible_mode 0) mode m) mode_buf
            (possible_mode 0) r_text r_text r_bytes r_bytes texts.0 texts.1 (omega arith)).1
          refl in
      rw
        (
          strlen-length (suc (suc b)) m mode r_text text (omega arith) (omega arith),
          same,
          file_open,
          modes_loop,
          strncmp,
        )
        refl
