-- ===== src/Ata/Registered.antt =====
-- The tables of the drives and of the block devices that kernel/drivers/ata/ata.c fills, and the drives
-- that it leaves out of them. A block device and its drive.
use mike_os.Base.{
  ◌%◌, ℕ, suc, ◌*◌, ◌≤◌, ◌<◌, ◌≡◌, ◌≢◌, ◌⊎◌, inl, inr, refl, sym, ap, subst, ◌∙◌, true, false, none,
  some, arith, bit_or, ==_iff, Bool-cases, ◌==◌, u32, ◌<<<◌,
}
use mike_os.Ata.{AtaDevice, ata}
use mike_os.Ata.Init.{BlockDevice, Drives, block_of, extract_identify_buffer, replaced}
use mike_os.Ata.Found.{IsTyped}

pub record IsRegistered (i : ℕ) (device : AtaDevice) (block : BlockDevice) : Type 0 where
  pub driver : block.device_specific ≡ i
  pub exists : device.exists ≡ true
  pub size : block.device_size ≡ device.drive_size
  pub sectors : block.sector_size ≡ device.sector_size
  pub kind :
      ((device.device_type ≡ ata) × (block.sector_size ≡ 512))
      ⊎ ((device.device_type ≢ ata) × (block.sector_size ≡ 0) × (block.device_size ≡ 0))

-- The tables when the drives below n have been looked at: the root device is the first block device.
pub record IsInventory (n : ℕ) (drives : Drives) : Type 0 where
  pub ahead :
      (i : ℕ)
      → n ≤ i
      → ((drives.ata_devices i).sector_size ≡ 0)
        × ((drives.devices i).driven ≡ false)
        × ((drives.ata_devices i).exists ≡ false)
  pub slave : (i : ℕ) → i < n → (drives.ata_devices i).is_slave ≡ (i % 2 == 1)
  pub exact : (i : ℕ) → (drives.ata_devices i).exists ≡ (drives.devices i).driven
  pub registered :
      (i : ℕ)
      → (drives.devices i).driven ≡ true
      → IsRegistered i (drives.ata_devices i) (drives.devices i)
  pub root :
      (r : ℕ)
      → drives.root_device ≡ some r
      → ((drives.devices r).driven ≡ true) × ((i : ℕ) → i < r → (drives.devices i).driven ≡ false)
  pub no_root : drives.root_device ≡ none → (i : ℕ) → (drives.devices i).driven ≡ false

pub replaced-other : {A : Type 0} (f : ℕ → A) (i j : ℕ) (x : A) → i ≢ j → replaced f i x j ≡ f j
unfolding replaced
replaced-other f i j x ne = let apart : (j == i) ≡ false = ground arith in rw apart refl

pub replaced-same : {A : Type 0} (f : ℕ → A) (i : ℕ) (x : A) → replaced f i x i ≡ x
unfolding replaced
replaced-same f i x = let same : (i == i) ≡ true = ground arith in rw same refl

-- The place of each drive on its channel.
pub slaves-kept :
    (i : ℕ) (drives : Drives) (device : AtaDevice)
    → device.is_slave ≡ (i % 2 == 1)
    → IsInventory i drives
    → (j : ℕ) → j < suc i
    → (replaced drives.ata_devices i device j).is_slave ≡ (j % 2 == 1)
slaves-kept i drives device place inventory j below = elim (Bool-cases (i == j)) [
  | inl equal ↦
      subst (λ k. (replaced drives.ata_devices i device k).is_slave ≡ (k % 2 == 1))
        ((==_iff i j).0 equal)
        (ap (λ d. d.is_slave) (replaced-same drives.ata_devices i device) ∙ place)
  | inr unequal ↦
      ap (λ d. d.is_slave)
        (replaced-other drives.ata_devices i j device (λ e. ground (arith, unequal)))
      ∙ inventory.slave j (ground (arith, unequal))
]

-- Drive i when no block device comes of it.
pub kept-IsInventory :
    (i : ℕ) (drives : Drives) (device : AtaDevice)
    → device.is_slave ≡ (i % 2 == 1)
    → device.exists ≡ false
    → IsInventory i drives
    → IsInventory (suc i) (record drives { ata_devices = replaced drives.ata_devices i device })
kept-IsInventory i drives device place absent inventory = record {
  ahead = λ j after. (
    ap (λ d. d.sector_size)
          (replaced-other drives.ata_devices i j device (λ e. absurd (omega arith)))
        ∙ (inventory.ahead j (omega arith)).0,
    (inventory.ahead j (omega arith)).1,
    ap (λ d. d.exists) (replaced-other drives.ata_devices i j device (λ e. absurd (omega arith)))
        ∙ (inventory.ahead j (omega arith)).2,
  );
  slave = slaves-kept i drives device place inventory;
  exact = λ j. elim (Bool-cases (i == j)) [
    | inl equal ↦
        subst (λ k. (replaced drives.ata_devices i device k).exists ≡ (drives.devices k).driven)
          ((==_iff i j).0 equal)
          (ap (λ d. d.exists) (replaced-same drives.ata_devices i device)
            ∙ absent
            ∙ sym (inventory.ahead i (omega arith)).1)
    | inr unequal ↦
        ap (λ d. d.exists)
          (replaced-other drives.ata_devices i j device (λ e. ground (arith, unequal)))
        ∙ inventory.exact j
  ];
  registered = λ j driven.
      let apart : i ≢ j = λ e. let undriven = (inventory.ahead j (omega arith)).1 in cc in
      subst (λ d. IsRegistered j d (drives.devices j))
        (sym (replaced-other drives.ata_devices i j device apart)) (inventory.registered j driven);
  root = inventory.root;
  no_root = inventory.no_root;
}

-- Drive i when its words make a block device of it.
pub extracted-IsRegistered :
    (i : ℕ) (device : AtaDevice) (words : ℕ → ℕ)
    → (words 0 == 0) ≡ false
    → device.exists ≡ true
    → IsTyped 0 device
    → IsRegistered i
        (extract_identify_buffer words device).0
        (block_of i (extract_identify_buffer words device).0)
unfolding extract_identify_buffer block_of
extracted-IsRegistered i device words disk exists typed =
    rw (disk, extract_identify_buffer)
      (record {
        driver = refl;
        exists = exists;
        size = refl;
        sectors = refl;
        kind = elim typed [
          | inl plain ↦ inl plain
          | inr other ↦ inr (
            other.0,
            other.1,
            ap (λ sector. u32 (bit_or (u32 (bit_or 0 (words 0x3d) <<< 16)) (words 0x3c) * sector))
                  other.1
                ∙ omega arith,
          )
        ];
      })
