-- ===== src/Vga/Cursor.antt =====
-- Where the console writes, and where its cursor stands (kernel/drivers/vga/vga.c).
use mike_os.Base.{
  ℕ, zero, suc, ◌+◌, ◌-◌, ◌*◌, ◌^◌, ◌≤◌, ◌<◌, ◌≡◌, ◌≢◌, ◌⊎◌, inl, inr, refl, ◌∙◌, false, arith,
  write, Bool-cases, ltb, ◌==◌, u32, done, undefined,
}
use mike_os.Memory.{Mem}
use mike_os.Vga.{
  VgaState, backspace_handler, default_handler, flush_loop, get_address_by_location,
  get_special_character_index, newline_handler, special_handler, tab_handler, vga_flush, vga_putc,
}

-- The cursor stands in one of 81 columns of 26 rows, and these cells do not wrap around.
pub record IsPlaced (s : VgaState) : Type 0 where
  pub column : s.x ≤ 80
  pub row : s.y ≤ 25
  pub fits : s.vga_buffer + 4162 ≤ 2 ^ 32

-- The state after an operation that keeps the buffer's address, the cursor's bounds, and the memory
-- outside the 2,081 cells that the cursor can reach.
pub record IsStep (s t : VgaState) : Type 0 where
  pub placed : IsPlaced t
  pub buffer : t.vga_buffer ≡ s.vga_buffer
  pub outside : (a : ℕ) → (a < s.vga_buffer) ⊎ (s.vga_buffer + 4162 ≤ a) → t.memory a ≡ s.memory a

flush_loop-outside :
    (buffer i n : ℕ) (m : Mem) (a : ℕ)
    → buffer + i + 2 * n ≤ 2 ^ 32
    → (a < buffer + i) ⊎ (buffer + i + 2 * n ≤ a)
    → flush_loop buffer i n m a ≡ m a
unfolding flush_loop
flush_loop-outside buffer i zero m a fits out = refl
flush_loop-outside buffer i (suc n) m a fits out = ground (
  arith,
  flush_loop-outside buffer (i + 2) n
      (write (write m (u32 (buffer + i)) 32) (u32 (buffer + (i + 1))) 0) a (omega arith)
      (omega arith),
)

newline_handler-IsStep :
    (s : VgaState) → s.y ≤ 25 → s.vga_buffer + 4162 ≤ 2 ^ 32 → IsStep s (newline_handler s)
unfolding newline_handler vga_flush
newline_handler-IsStep s row fits = elim (Bool-cases (ltb 25 (u32 (s.y + 1)))) [
  | inl last ↦ rw last (record {
    placed = record { column = omega arith; row = omega arith; fits = fits };
    buffer = refl;
    outside =
        λ a out. flush_loop-outside s.vga_buffer 0 2000 s.memory a (omega arith) (omega arith);
  })
  | inr more ↦ rw more (record {
    placed = record { column = omega arith; row = ground arith; fits = fits };
    buffer = refl;
    outside = λ a out. refl;
  })
]

-- The cell of a cursor that is placed.
cell_address :
    (s : VgaState)
    → IsPlaced s
    → get_address_by_location s s.x s.y ≡ s.vga_buffer + 2 * s.x + 160 * s.y
unfolding get_address_by_location
cell_address s ok = let column = ok.column in let row = ok.row in let fits = ok.fits in omega arith

default_handler-IsStep : (c : ℕ) (s : VgaState) → IsPlaced s → IsStep s (default_handler c s)
unfolding default_handler
default_handler-IsStep c s ok =
    let column = ok.column in
    let row = ok.row in
    let fits = ok.fits in
    let at = cell_address s ok in
    let addr = get_address_by_location s s.x s.y in
    let m' = write (write s.memory addr c) (u32 (addr + 1)) s.color in
    let s' = record s { memory = m'; x = u32 (s.x + 1) } in
    let outside : (a : ℕ) → (a < s.vga_buffer) ⊎ (s.vga_buffer + 4162 ≤ a) → m' a ≡ s.memory a =
      λ a out. ground arith in
    let line = newline_handler-IsStep s' row fits in
    elim (Bool-cases (ltb 80 (u32 (s.x + 1)))) [
      | inl last ↦ rw last (record {
        placed = line.placed;
        buffer = line.buffer;
        outside = λ a out. line.outside a out ∙ outside a out;
      })
      | inr more ↦ rw more (record {
        placed = record { column = ground arith; row = row; fits = fits };
        buffer = refl;
        outside = outside;
      })
    ]

tab_handler-IsStep : (s : VgaState) → IsPlaced s → IsStep s (tab_handler s)
unfolding tab_handler
tab_handler-IsStep s ok =
    let column = ok.column in
    let row = ok.row in
    let fits = ok.fits in
    let s' = record s { x = u32 (s.x + 4) } in
    let line = newline_handler-IsStep s' row fits in
    elim (Bool-cases (ltb 80 (u32 (s.x + 4)))) [
      | inl last ↦ rw last (record {
        placed = line.placed;
        buffer = line.buffer;
        outside = λ a out. line.outside a out;
      })
      | inr more ↦ rw more (record {
        placed = record { column = ground arith; row = row; fits = fits };
        buffer = refl;
        outside = λ a out. refl;
      })
    ]

-- Of a cursor in columns 0 to 80 and rows 0 to 25: every character but carriage return (13) and
-- backspace (8) is handled, leaves the cursor in these bounds, and writes only to the 2,081 cells from
-- the buffer's start that the cursor can reach.
pub vga_putc-IsStep :
    (c : ℕ) (s : VgaState)
    → IsPlaced s
    → c ≢ 13
    → c ≢ 8
    → (t : VgaState) × (vga_putc c s ≡ done t) × IsStep s t
unfolding vga_putc special_handler get_special_character_index
vga_putc-IsStep c s ok not_return not_backspace = elim (special c not_return not_backspace) [
  | inl newline ↦
      rw newline
        (newline_handler s, λ _. done (newline_handler s), newline_handler-IsStep s ok.row ok.fits)
  | inr (inl tab) ↦ rw tab (tab_handler s, λ _. done (tab_handler s), tab_handler-IsStep s ok)
  | inr (inr (n, t, r, b)) ↦
      rw (n, t, r, b)
        (default_handler c s, λ _. done (default_handler c s), default_handler-IsStep c s ok)
]
  where
    special :
        (c : ℕ)
        → c ≢ 13
        → c ≢ 8
        → (c ≡ 10)
          ⊎ ((c ≡ 9)
              ⊎ (((c == 10) ≡ false)
                  × ((c == 9) ≡ false)
                  × ((c == 13) ≡ false)
                  × ((c == 8) ≡ false)))
    special c r b = ground arith

-- A character written at column 80 of a row above the last goes to the first cell of the next row,
-- and the next character overwrites it: the memory is the same as if it had not been written.
pub default_handler-last_column_lost :
    (c d : ℕ) (s : VgaState) (a : ℕ)
    → IsPlaced s
    → s.x ≡ 80
    → s.y < 25
    → (default_handler d (default_handler c s)).memory a
      ≡ (default_handler d (record s { x = 0; y = s.y + 1 })).memory a
unfolding default_handler newline_handler get_address_by_location
default_handler-last_column_lost c d s a ok last above = let fits = ok.fits in ground arith

-- A backspace is the call of a handler that the table does not have, and a carriage return is
-- a backspace: it steps back by one column and writes a space there.
pub vga_putc-return_erases :
    (s : VgaState)
    → IsPlaced s
    → 0 < s.x
    → (vga_putc 8 s ≡ undefined)
      × ((t : VgaState) × (vga_putc 13 s ≡ done t)
          × (t.x ≡ s.x - 1)
          × (t.y ≡ s.y)
          × (t.memory (s.vga_buffer + 2 * (s.x - 1) + 160 * s.y) ≡ 32))
unfolding vga_putc special_handler get_special_character_index backspace_handler default_handler
    newline_handler get_address_by_location
vga_putc-return_erases s ok positive =
    let column = ok.column in
    let row = ok.row in
    let fits = ok.fits in
    (refl, (backspace_handler s, refl, ground arith, ground arith, ground arith))
