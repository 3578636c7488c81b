-- ===== src/Examples/Disks.antt =====
-- Examples: a simulated disk drive for kernel/drivers/ata/ata.c.
-- The registers of the drive, the next word to give, the words left, and how often it is still busy.
use mike_os.Base.{
  ℕ, suc, ◌+◌, ◌-◌, ◌*◌, ◌%◌, ◌^◌, ◌≤◌, ◌≡◌, inl, inr, refl, sym, ap, ◌∙◌, true, false, none, some,
  [], arith, bit_and, if◌then◌else◌, write, lt_or_le, ◌==◌,
}
use mike_os.PortAccess.{Ends, Ports, finished}
use mike_os.Ata.{AtaDevice, ata, ata_read}
use mike_os.Ata.Drive.{PioDrive}
use mike_os.Ata.Copied.{Copied}
use mike_os.Ata.Read.{ata_read-Copied}
use mike_os.Ata.Init.{Drives, ata_init}
use mike_os.Ata.Inventory.{ata_init-IsInventory}
use mike_os.Ata.Registered.{IsInventory}

record SimDrive : Type 0 where
  registers : ℕ → ℕ
  next_word : ℕ
  words_left : ℕ
  busy_for : ℕ

abbrev sim_disk : ℕ → ℕ
sim_disk p = p * 3 % 2 ^ 16

abbrev ticked : SimDrive → SimDrive
ticked s = record s { busy_for = s.busy_for - 1 }

abbrev sim_status : SimDrive → ℕ
sim_status s = if s.words_left == 0 then 0x50 else if s.busy_for == 0 then 0x58 else 0x80

abbrev sim_command : ℕ → SimDrive → SimDrive
sim_command command s =
    let r = s.registers in
    if command == 0x20
    then record s {
      next_word = (r 3 + r 4 * 2 ^ 8 + r 5 * 2 ^ 16 + r 6 % 16 * 2 ^ 24) * 256;
      words_left = r 2 * 256;
      busy_for = 2;
    }
    else s

abbrev sim_data : SimDrive → SimDrive
sim_data s = record s {
  next_word = suc s.next_word;
  words_left = s.words_left - 1;
  busy_for = if suc s.next_word % 256 == 0 then 3 else 0;
}

-- The drive at the base 0x1F0.
abbrev sim_ports : Ports SimDrive
sim_ports = record {
  reads = λ port s. if port == 0x1F7 then (sim_status s, ticked s) else (0, ticked s);
  writes = λ port value s.
      if port == 0x1F7
      then sim_command value s
      else record s { registers = write s.registers (port - 0x1F0) value };
  reads_word = λ port s. (sim_disk s.next_word, sim_data s);
  writes_word = λ port value s. s;
}

abbrev sim_device : AtaDevice
sim_device = record {
  base = 0x1F0;
  device_type = ata;
  signature = 1;
  features = 0;
  command_supported = 0;
  sector_size = 512;
  drive_size = 1024;
  exists = true;
  is_lba48 = false;
  is_slave = false;
}

-- A write to a register 2 to 6 is none to the command register.
other_port-kept :
    (s : SimDrive) (r v : ℕ)
    → 2 ≤ r
    → r ≤ 6
    → (P : SimDrive → Type 0) → P (record s { registers = write s.registers (0x1F0 + r - 0x1F0) v })
    → P (sim_ports.writes (0x1F0 + r) v s)
other_port-kept s r v low high P kept =
    let other : (0x1F0 + r == 0x1F7) ≡ false = ground arith in rw other kept

sim_drive : PioDrive sim_ports sim_device sim_disk 2
sim_drive = record {
  Idle = λ s. s.words_left ≡ 0;
  Serving = λ p n s. (s.next_word ≡ p) × (s.words_left ≡ n);
  register = λ r s. s.registers r;
  pending = λ s. s.busy_for;
  between = 3;
  idle-status = λ s idle. (rw idle refl, idle);
  idle-write = λ s r v low high idle. other_port-kept s r v low high (λ t. t.words_left ≡ 0) idle;
  register-write = λ s r k v low high.
      let register : 0x1F0 + r - 0x1F0 ≡ r = omega arith in
      other_port-kept s r v low high (λ t. t.registers k ≡ write (λ i. s.registers i) r v k)
        (rw register refl);
  read-command = λ s idle some_count selected. ((refl, refl), omega arith);
  serving-status = λ s p n serving. (serving, omega arith);
  ready-status = λ s p n serving ready.
      let shown : sim_status s ≡ 0x58 = ground (arith, serving, ready) in
      (
        (λ e. absurd (omega (arith, sym (ap (λ t. bit_and t 0x40) shown) ∙ e))),
        (λ e. absurd (omega (arith, sym (ap (λ t. bit_and t 0x08) shown) ∙ e))),
      );
  shown-ready = λ s p n serving shown. elim (lt_or_le 0 s.busy_for) [
    | inr over ↦ omega arith
    | inl busy ↦
        let hidden : sim_status s ≡ 0x80 = ground (arith, serving) in
        absurd (shown (ap (λ t. bit_and t 0x08) hidden))
  ];
  serving-alternate = λ s p n serving. (serving, omega arith);
  serving-data = λ s p n serving ready. (
    ap sim_disk serving.0,
    (ap (λ q. suc q) serving.0, omega (arith, serving.1)),
    ground arith,
    ground (arith, serving.0),
  );
  served-Idle = λ s p serving. serving.1;
}

abbrev start : SimDrive
start = record { registers = λ r. 0; next_word = 0; words_left = 0; busy_for = 0 }

abbrev first_words : ℕ → ℕ
first_words = λ j. 9

ata_read-Copied_example :
    (after : ℕ → ℕ) × (s' : SimDrive) × (ata_read sim_ports 3 sim_device
        (some first_words)
        5
        2
        start
      ≡ finished (after, s'))
    × Copied sim_disk 0 (5 * 256) (2 * 256) first_words after
    × (s'.words_left ≡ 0)
unfolding sim_drive
ata_read-Copied_example =
    ata_read-Copied sim_drive 3 5 2 first_words start refl refl (omega arith) (omega arith)
      (omega arith) (omega arith) (inr (omega arith))

abbrev empty_drives : Drives
empty_drives = record {
  ata_devices = λ i. record sim_device { sector_size = 0; exists = false };
  devices = λ i. record {
    name = [];
    driven = false;
    device_specific = 0;
    device_size = 0;
    sector_size = 0;
  };
  root_device = none;
}

ata_init-IsInventory_example : Ends (IsInventory 4) (ata_init sim_ports empty_drives start)
ata_init-IsInventory_example =
    ata_init-IsInventory sim_ports empty_drives start (λ i. refl) (λ i. refl) (λ i. refl) refl
