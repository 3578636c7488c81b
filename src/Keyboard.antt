-- ===== src/Keyboard.antt =====
-- kernel/drivers/keyboard/keyboard_driver.c over the ports: the map of keys, and the interrupt handler, which
-- answers with the character that it prints. The log is left out.
pub mod Keys
use mike_os.Base.{
  ℕ, ◌&&◌, not, Option, none, some, List, [], ◌∷◌, bit_and, if◌then◌else◌, get_elem?, ltb, ◌==◌,
}
use mike_os.PortAccess.{M, Ports, read_port, return, ◌>>=◌}
use mike_os.Idt.{Irqs, register_irq}

-- `keyboard_map`; the entries behind the last one written are 0.
unfoldable pub keyboard_map : List ℕ
keyboard_map =
    0 ∷ 27 ∷ 49 ∷ 50 ∷ 51 ∷ 52 ∷ 53 ∷ 54 ∷ 55 ∷ 56 ∷ 57 ∷ 48 ∷ 45 ∷ 61 ∷ 8 ∷ 9 ∷ 113 ∷ 119 ∷ 101
    ∷ 114 ∷ 116 ∷ 121 ∷ 117 ∷ 105 ∷ 111 ∷ 112 ∷ 91 ∷ 93 ∷ 10 ∷ 0 ∷ 97 ∷ 115 ∷ 100 ∷ 102 ∷ 103 ∷ 104
    ∷ 106 ∷ 107 ∷ 108 ∷ 59 ∷ 39 ∷ 96 ∷ 0 ∷ 92 ∷ 122 ∷ 120 ∷ 99 ∷ 118 ∷ 98 ∷ 110 ∷ 109 ∷ 44 ∷ 46 ∷ 47
    ∷ 0 ∷ 42 ∷ 0 ∷ 32 ∷ 0 ∷ 0 ∷ 0 ∷ 0 ∷ 0 ∷ 0 ∷ 0 ∷ 0 ∷ 0 ∷ 0 ∷ 0 ∷ 0 ∷ 0 ∷ 0 ∷ 0 ∷ 0 ∷ 45 ∷ 0 ∷ 0
    ∷ 0 ∷ 43 ∷ 0 ∷ 0 ∷ 0 ∷ 0 ∷ 0 ∷ 0 ∷ 0 ∷ 0 ∷ 0 ∷ 0 ∷ 0 ∷ []

unfoldable pub key_at : ℕ → ℕ
unfolding keyboard_map
key_at keycode = elim (get_elem? keyboard_map keycode) [ none ↦ 0 | some c ↦ c ]

-- `keycode` is a signed `char`: a byte from 128 on, which tells of a released key, is negative.
unfoldable pub character_of : ℕ → Option ℕ
unfolding key_at
character_of keycode =
    if ltb keycode 128 && not (key_at keycode == 0) then some (key_at keycode) else none

unfoldable pub keyboard_irq : {S : Type 0} → Ports S → M S (Option ℕ)
unfolding character_of
keyboard_irq ports = do
  status ← read_port ports 0x64
  if bit_and status 0x01 == 0
      then return none
      else (do keycode ← read_port ports 0x60; return (character_of keycode))

-- `handler` is the interrupt handler on the state of the devices.
unfoldable pub keyboard_init : {S : Type 0} → (handler : S → S) → Irqs S → Irqs S
unfolding register_irq
keyboard_init handler s =
    let registered = (register_irq (some handler) 1 s).0 in
    record registered { writes = (0x21, 0xFD) ∷ registered.writes }
