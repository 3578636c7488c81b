-- ===== src/Keyboard/Keys.antt =====
-- What the interrupt handler of kernel/drivers/keyboard/keyboard_driver.c prints, and which ports it reads.
-- Every character of the map is a byte of ASCII.
use mike_os.Base.{
  ℕ, ◌≤◌, ◌<◌, ◌≡◌, ◌≢◌, refl, true, false, none, some, arith, bit_and, all_below, all_below_sound,
  ltb, ◌==◌,
}
use mike_os.PortAccess.{Ports, finished}
use mike_os.Keyboard.{character_of, key_at, keyboard_irq, keyboard_map}

key_at-ascii : (k : ℕ) → k < 128 → key_at k < 128
unfolding key_at keyboard_map all_below
key_at-ascii k inside =
    let table = all_below_sound 128 (λ j. ltb (key_at j) 128) k refl inside in ground (arith, table)

-- The handler always ends: it prints nothing when the controller has no byte, and then leaves the data
-- port alone; a released key prints nothing, and what a pressed key prints is a character of the map.
pub keyboard_irq-prints :
    {S : Type 0} (ports : Ports S) (s : S)
    → let (status, s1) = ports.reads 0x64 s in
      let (keycode, s2) = ports.reads 0x60 s1 in
      (bit_and status 1 ≡ 0 → keyboard_irq ports s ≡ finished (none, s1))
      × (bit_and status 1 ≢ 0 → 128 ≤ keycode → keyboard_irq ports s ≡ finished (none, s2))
      × (bit_and status 1 ≢ 0
          → keycode < 128
          → key_at keycode ≢ 0
          → keyboard_irq ports s ≡ finished (some (key_at keycode), s2))
unfolding keyboard_irq character_of
keyboard_irq-prints ports s =
    let (status, s1) = ports.reads 0x64 s in
    let (keycode, s2) = ports.reads 0x60 s1 in
    (
      (λ empty.
          let none_there : (bit_and status 1 == 0) ≡ true = ground (arith, empty) in
          rw (none_there, keyboard_irq) refl),
      (λ full released.
          let there : (bit_and status 1 == 0) ≡ false = ground (arith, full) in
          let negative : ltb keycode 128 ≡ false = ground arith in
          rw (there, keyboard_irq, negative, character_of) refl),
      (λ full pressed mapped.
          let there : (bit_and status 1 == 0) ≡ false = ground (arith, full) in
          let positive : ltb keycode 128 ≡ true = ground arith in
          let used : (key_at keycode == 0) ≡ false = ground (arith, mapped) in
          rw (there, keyboard_irq, positive, used, character_of) refl),
    )
