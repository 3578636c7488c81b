-- ===== src/Ata/Inventory.antt =====
-- What `ata_init` (kernel/drivers/ata/ata.c) leaves in the tables of the drives and of the block devices.
use mike_os.Base.{
  ◌%◌, subst₂, ℕ, zero, suc, ◌+◌, ◌<◌, ◌≡◌, ◌≢◌, inl, inr, refl, sym, ap, subst, ◌∙◌, true, false,
  Option, none, some, arith, Option-cases, ==_iff, Bool-cases, lt_or_le, ltb, some-injective, ◌==◌,
}
use mike_os.PortAccess.{Ends, Ports, bind-Ends}
use mike_os.Ata.{AtaDevice}
use mike_os.Ata.Init.{
  BlockDevice, Drives, ata_init, block_of, choose_root, extract_identify_buffer, init_drive,
  init_loop, record_drive, register_drive, replaced, with_bases,
}
use mike_os.Ata.Found.{Found, IsTyped, answered, init_drive-Found, missing}
use mike_os.Ata.Registered.{
  IsInventory, IsRegistered, extracted-IsRegistered, kept-IsInventory, replaced-other,
  replaced-same, slaves-kept,
}

chosen-root :
    (i : ℕ) (drives : Drives) (block : BlockDevice)
    → IsInventory i drives
    → block.driven ≡ true
    → (r : ℕ) → choose_root i drives.root_device ≡ some r
    → ((replaced drives.devices i block r).driven ≡ true)
      × ((j : ℕ) → j < r → (replaced drives.devices i block j).driven ≡ false)
unfolding choose_root
chosen-root i drives block inventory driven r chosen = elim (Option-cases drives.root_device) [
  | inl unset ↦
      let same : i ≡ r = some-injective (subst (λ o. choose_root i o ≡ some r) unset chosen) in
      subst
        (λ q.
          ((replaced drives.devices i block q).driven ≡ true)
          × ((j : ℕ) → j < q → (replaced drives.devices i block j).driven ≡ false))
        same
        (
          ap (λ b. b.driven) (replaced-same drives.devices i block) ∙ driven,
          λ j below.
              ap (λ b. b.driven)
                (replaced-other drives.devices i j block (λ e. absurd (omega arith)))
              ∙ inventory.no_root unset j,
        )
  | inr (q, set) ↦
      let same : q ≡ r = some-injective (subst (λ o. choose_root i o ≡ some r) set chosen) in
      let (driven', first) = inventory.root q set in
      let below : q < i = elim (lt_or_le q i) [
        | inl lt ↦ lt
        | inr le ↦ let undriven = (inventory.ahead q le).1 in absurd cc
      ] in
      subst
        (λ q.
          ((replaced drives.devices i block q).driven ≡ true)
          × ((j : ℕ) → j < q → (replaced drives.devices i block j).driven ≡ false))
        same
        (
          ap (λ b. b.driven) (replaced-other drives.devices i q block (λ e. absurd (omega arith)))
              ∙ driven',
          λ j before.
              ap (λ b. b.driven)
                (replaced-other drives.devices i j block (λ e. absurd (omega arith)))
              ∙ first j before,
        )
]

chosen-some : (i : ℕ) (o : Option ℕ) → choose_root i o ≢ none
unfolding choose_root
chosen-some i none = λ e. cc
chosen-some i (some r) = λ e. cc

added-IsInventory :
    (i : ℕ) (drives : Drives) (device : AtaDevice) (block : BlockDevice)
    → block.driven ≡ true
    → device.is_slave ≡ (i % 2 == 1)
    → IsRegistered i device block
    → IsInventory i drives
    → IsInventory (suc i) (record {
      ata_devices = replaced drives.ata_devices i device;
      devices = replaced drives.devices i block;
      root_device = choose_root i drives.root_device;
    })
added-IsInventory i drives device block driven place registered inventory = record {
  ahead = λ j after.
      let apart : i ≢ j = λ e. absurd (omega arith) in
      let (sector, undriven, absent) = inventory.ahead j (omega arith) in
      (
        ap (λ d. d.sector_size) (replaced-other drives.ata_devices i j device apart) ∙ sector,
        ap (λ b. b.driven) (replaced-other drives.devices i j block apart) ∙ undriven,
        ap (λ d. d.exists) (replaced-other drives.ata_devices i j device apart) ∙ absent,
      );
  slave = slaves-kept i drives device place inventory;
  exact = λ j. elim (Bool-cases (i == j)) [
    | inl equal ↦
        subst
          (λ k.
            (replaced drives.ata_devices i device k).exists
            ≡ (replaced drives.devices i block k).driven)
          ((==_iff i j).0 equal)
          (ap (λ d. d.exists) (replaced-same drives.ata_devices i device)
            ∙ registered.exists
            ∙ sym (ap (λ b. b.driven) (replaced-same drives.devices i block) ∙ driven))
    | inr unequal ↦
        let apart : i ≢ j = λ e. ground (arith, unequal) in
        ap (λ d. d.exists) (replaced-other drives.ata_devices i j device apart)
        ∙ inventory.exact j
        ∙ sym (ap (λ b. b.driven) (replaced-other drives.devices i j block apart))
  ];
  registered = λ j driven'. elim (Bool-cases (i == j)) [
    | inl equal ↦
        subst
          (λ k.
            IsRegistered k (replaced drives.ata_devices i device k)
              (replaced drives.devices i block k))
          ((==_iff i j).0 equal)
          (subst₂ (λ d b. IsRegistered i d b) (sym (replaced-same drives.ata_devices i device))
            (sym (replaced-same drives.devices i block)) registered)
    | inr unequal ↦
        let apart : i ≢ j = λ e. ground (arith, unequal) in
        let old = replaced-other drives.devices i j block apart in
        subst₂ (λ d b. IsRegistered j d b)
          (sym (replaced-other drives.ata_devices i j device apart)) (sym old)
          (inventory.registered j (sym (ap (λ b. b.driven) old) ∙ driven'))
  ];
  root = chosen-root i drives block inventory driven;
  no_root = λ unset. absurd (chosen-some i drives.root_device unset);
}

-- The step for a drive that answered.
register_drive-IsInventory :
    (i : ℕ) (drives : Drives) (device : AtaDevice) (words : ℕ → ℕ)
    → device.exists ≡ true
    → device.is_slave ≡ (i % 2 == 1)
    → IsTyped (drives.ata_devices i).sector_size device
    → IsInventory i drives
    → IsInventory (suc i) (register_drive i device words drives)
unfolding register_drive record_drive
register_drive-IsInventory i drives device words exists place typed inventory =
    let (device', listed) = extract_identify_buffer words device in
    elim (Bool-cases (words 0 == 0)) [
      | inl no_disk ↦
          let refused : listed ≡ false = rw (no_disk, extract_identify_buffer) refl in
          subst (λ b. IsInventory (suc i) (record_drive i drives device' b)) (sym refused)
            (kept-IsInventory i drives device' (rw (no_disk, extract_identify_buffer) place)
              (rw (no_disk, extract_identify_buffer) refl) inventory)
      | inr disk ↦
          let taken : listed ≡ true = rw (disk, extract_identify_buffer) refl in
          let typed' =
            subst (λ old. IsTyped old device) (inventory.ahead i (omega arith)).0 typed in
          subst (λ b. IsInventory (suc i) (record_drive i drives device' b)) (sym taken)
            (added-IsInventory i drives device' (block_of i device') refl
              (rw (disk, extract_identify_buffer) place)
              (extracted-IsRegistered i device words disk exists typed') inventory)
    ]

Found-IsInventory :
    (i : ℕ) (drives drives' : Drives)
    → Found i drives drives'
    → IsInventory i drives
    → IsInventory (suc i) drives'
Found-IsInventory i drives _ (missing slave place) inventory =
    kept-IsInventory i drives _ place (inventory.ahead i (omega arith)).2 inventory
Found-IsInventory i drives _ (answered device words exists place typed) inventory =
    register_drive-IsInventory i drives device words exists place typed inventory

based_size :
    (ata_devices : ℕ → AtaDevice) (i : ℕ)
    → (with_bases ata_devices i).sector_size ≡ (ata_devices i).sector_size
unfolding with_bases
based_size ata_devices i = elim (Bool-cases (ltb i 2)) [
  | inl low ↦ rw (low, with_bases) refl
  | inr high ↦ elim (Bool-cases (ltb i 4)) [
    | inl second ↦ rw (high, second, with_bases) refl
    | inr outside ↦ rw (high, outside, with_bases) refl
  ]
]

based_exists :
    (ata_devices : ℕ → AtaDevice) (i : ℕ)
    → (with_bases ata_devices i).exists ≡ (ata_devices i).exists
unfolding with_bases
based_exists ata_devices i = elim (Bool-cases (ltb i 2)) [
  | inl low ↦ rw (low, with_bases) refl
  | inr high ↦ elim (Bool-cases (ltb i 4)) [
    | inl second ↦ rw (high, second, with_bases) refl
    | inr outside ↦ rw (high, outside, with_bases) refl
  ]
]

-- The whole loop, from drive i.
init_loop-IsInventory :
    {S : Type 0} (ports : Ports S) (i left : ℕ) (drives : Drives) (s : S)
    → IsInventory i drives
    → Ends (IsInventory (i + left)) (init_loop ports i left drives s)
unfolding init_loop
init_loop-IsInventory ports i zero drives s inventory =
    (drives, s, refl, subst (λ n. IsInventory n drives) (omega arith) inventory)
init_loop-IsInventory ports i (suc left) drives s inventory =
    bind-Ends (Found i drives) (IsInventory (i + suc left)) (init_drive ports i drives s)
      (init_loop ports (i + 1) left) (init_drive-Found ports i drives s)
      (λ drives' s' found.
        let next =
          subst (λ n. IsInventory n drives') (omega arith)
            (Found-IsInventory i drives drives' found inventory) in
        subst (λ n. Ends (IsInventory n) (init_loop ports (i + 1) left drives' s')) (omega arith)
          (init_loop-IsInventory ports (i + 1) left drives' s' next))

-- From the zeroed tables of the kernel's image, whatever the ports answer, `ata_init` ends. The second of
-- each two of the four drives is then marked as the slave and the first is not; a block device stands beside
-- exactly the drives that exist, and has their sizes; these are 512 for a sector of an ATA drive, and 0 for
-- the sector and the whole of any other; the root device is the first block device, when there is one.
pub ata_init-IsInventory :
    {S : Type 0} (ports : Ports S) (drives : Drives) (s : S)
    → ((i : ℕ) → (drives.ata_devices i).sector_size ≡ 0)
    → ((i : ℕ) → (drives.ata_devices i).exists ≡ false)
    → ((i : ℕ) → (drives.devices i).driven ≡ false)
    → drives.root_device ≡ none
    → Ends (IsInventory 4) (ata_init ports drives s)
unfolding ata_init with_bases
ata_init-IsInventory ports drives s zero_sizes absent undriven unset =
    init_loop-IsInventory ports 0 4 (record drives { ata_devices = with_bases drives.ata_devices })
      s
      (record {
        ahead = λ i after. (
          based_size drives.ata_devices i ∙ zero_sizes i,
          undriven i,
          based_exists drives.ata_devices i ∙ absent i,
        );
        slave = λ i below. absurd (omega arith);
        exact = λ i. based_exists drives.ata_devices i ∙ absent i ∙ sym (undriven i);
        registered = λ i driven. let not_driven = undriven i in absurd cc;
        root = λ r set. let clash : none ≡ some r = sym unset ∙ set in absurd cc;
        no_root = λ empty i. undriven i;
      })
