-- ===== src/Vga.antt =====
-- kernel/drivers/vga/vga.c: the text console. Memory is the whole memory, by 32-bit addresses;
-- `undefined` is the call of a handler that is not in the table. `vga_scroll`, which nothing calls, is
-- left out.
pub mod Cursor
use mike_os.Base.{
  ℕ, zero, suc, ◌+◌, ◌-◌, ◌*◌, ◌^◌, Bool, ◌&&◌, not, Option, none, some, if◌then◌else◌, write, leb,
  ltb, ◌==◌, sub32, u32, Outcome, done, undefined,
}
use mike_os.Memory.{Mem}
use mike_os.Kheap.{Kheap, map_physical_address_to_kheap}

abbrev pub screen_cols : ℕ
screen_cols = 80

abbrev pub screen_rows : ℕ
screen_rows = 25

abbrev pub vga_physical_address : ℕ
vga_physical_address = 0xb8000

-- `vga_state_t`, and the memory.
pub record VgaState : Type 0 where
  pub vga_buffer : ℕ
  pub color : ℕ
  pub x : ℕ
  pub y : ℕ
  pub memory : Mem

-- '\n', '\t', '\r', '\b'; 2 ^ 32 - 1 for the others.
unfoldable pub get_special_character_index : ℕ → ℕ
get_special_character_index c =
    if c == 10
    then 0
    else if c == 9
    then 1
    else if c == 13
    then 2
    else if c == 8
    then 3
    else 2 ^ 32 - 1

unfoldable pub get_address_by_location : VgaState → ℕ → ℕ → ℕ
get_address_by_location s x y = u32 (s.vga_buffer + u32 (x * 2 + y * screen_cols * 2))

abbrev pub y_reached_limit : VgaState → Bool
y_reached_limit s = ltb screen_rows s.y

abbrev pub x_reached_limit : VgaState → Bool
x_reached_limit s = ltb screen_cols s.x

-- The loop of `vga_flush`, from index i over the n cells left.
unfoldable pub flush_loop : ℕ → ℕ → ℕ → Mem → Mem
flush_loop buffer i zero m = m
flush_loop buffer i (suc n) m =
    flush_loop buffer (i + 2) n (write (write m (u32 (buffer + i)) 32) (u32 (buffer + (i + 1))) 0)

unfoldable pub vga_flush : VgaState → VgaState
vga_flush s = record s {
  memory = flush_loop s.vga_buffer 0 (screen_cols * screen_rows) s.memory;
  x = 0;
  y = 0;
}

unfoldable pub newline_handler : VgaState → VgaState
unfolding vga_flush
newline_handler s =
    let s' = record s { y = u32 (s.y + 1); x = 0 } in
    if y_reached_limit s' then vga_flush s' else s'

unfoldable pub tab_handler : VgaState → VgaState
unfolding newline_handler
tab_handler s =
    let s' = record s { x = u32 (s.x + 4) } in if x_reached_limit s' then newline_handler s' else s'

unfoldable pub default_handler : ℕ → VgaState → VgaState
unfolding newline_handler get_address_by_location
default_handler c s =
    let addr = get_address_by_location s s.x s.y in
    let s' = record s {
      memory = write (write s.memory addr c) (u32 (addr + 1)) s.color;
      x = u32 (s.x + 1);
    } in
    if x_reached_limit s' then newline_handler s' else s'

-- The test `vga_state.x - 1 >= 0` is on unsigned numbers. `vga_putc(' ')` is the default handler.
unfoldable pub backspace_handler : VgaState → VgaState
unfolding default_handler
backspace_handler s =
    if leb 0 (sub32 s.x 1)
    then (let s' = default_handler 32 (record s { x = sub32 s.x 1 }) in
        record s' { x = sub32 s'.x 1 })
    else s

-- `special_characters_handlers[handler_index]()`: the table has three entries.
unfoldable pub special_handler : ℕ → VgaState → Outcome VgaState
unfolding newline_handler tab_handler backspace_handler
special_handler index s =
    if index == 0
    then done (newline_handler s)
    else if index == 1
    then done (tab_handler s)
    else if index == 2
    then done (backspace_handler s)
    else undefined

unfoldable pub vga_putc : ℕ → VgaState → Outcome VgaState
unfolding special_handler get_special_character_index default_handler
vga_putc c s =
    let index = get_special_character_index c in
    if not (index == 2 ^ 32 - 1) then special_handler index s else done (default_handler c s)

-- `vga_print` of the string at `str`, on fuel for its length.
unfoldable pub vga_print : ℕ → ℕ → VgaState → Option (Outcome VgaState)
unfolding vga_putc
vga_print zero str s = none
vga_print (suc fuel) str s =
    if s.memory str == 0 then some (done s) else elim (vga_putc (s.memory str) s) [
      | undefined ↦ some undefined
      | done s' ↦ vga_print fuel (str + 1) s'
    ]

unfoldable pub set_terminal_color : ℕ → VgaState → VgaState
set_terminal_color color s = if leb 1 color && leb color 15 then record s { color = color } else s

unfoldable pub vga_init : Kheap → VgaState → Outcome (Kheap × VgaState)
vga_init h s = elim (map_physical_address_to_kheap vga_physical_address 2 h) [
  | undefined ↦ undefined
  | done r ↦ done (r.0, record s { vga_buffer = r.1 })
]
