-- ===== src/Gdt/Fields.antt =====
-- What the processor reads from a descriptor (kernel/gdt.c).
use mike_os.Base.{
  ℕ, ◌+◌, ◌*◌, ◌/◌, ◌%◌, ◌^◌, ◌≤◌, ◌<◌, ◌≡◌, refl, arith, bit_and_mask, bit_or-nibbles,
  bit_and_high, bit_and, ap, ◌∙◌, bit_or, if◌then◌else◌, ◌==◌, u8,
}
use mike_os.Gdt.{Gdt, GdtEntry, gate, set_gdt_gate, load_gdt, load_ring3_segments, TaskState}

abbrev pub base_of : GdtEntry → ℕ
base_of e = e.base_low + e.base_middle * 2 ^ 16 + e.base_high * 2 ^ 24

abbrev pub limit_of : GdtEntry → ℕ
limit_of e = e.limit_low + e.granularity % 16 * 2 ^ 16

abbrev pub flags_of : GdtEntry → ℕ
flags_of e = e.granularity / 16

granularity-nibbles :
    (limit gran : ℕ)
    → gran < 256
    → bit_or (u8 (bit_and (limit / 2 ^ 16) 0x0F)) (bit_and gran 0xF0)
      ≡ gran / 16 * 16 + limit / 2 ^ 16 % 16
granularity-nibbles limit gran h =
    let low = bit_and_mask 4 (limit / 2 ^ 16) in
    let split : gran ≡ gran / 16 * 16 + gran % 16 = omega arith in
    let high : bit_and gran 0xF0 ≡ gran / 16 * 16 =
      ap (λ (t : ℕ). bit_and t 0xF0) split
      ∙ bit_and_high 4 (gran / 16) (gran % 16) 15 (omega arith)
      ∙ omega (arith, bit_and_mask 4 (gran / 16)) in
    let low' : u8 (bit_and (limit / 2 ^ 16) 0x0F) ≡ limit / 2 ^ 16 % 16 = omega (arith, low) in
    rw (high, low') (bit_or-nibbles (gran / 16) (limit / 2 ^ 16 % 16) (omega arith) (omega arith))

-- The scattered fields of a gate give the processor the base that was set, the low 20 bits of the
-- limit, the flags of the high nibble of `gran`, and the access byte.
pub gate-fields :
    (base limit access gran : ℕ)
    → base < 2 ^ 32
    → limit < 2 ^ 32
    → gran < 256
    → (base_of (gate base limit access gran) ≡ base)
      × (limit_of (gate base limit access gran) ≡ limit % 2 ^ 20)
      × (flags_of (gate base limit access gran) ≡ gran / 16)
      × ((gate base limit access gran).access ≡ access)
unfolding gate
gate-fields base limit access gran hb hl hg =
    let g = granularity-nibbles limit gran hg in
    (
      omega (
        arith,
        bit_and_mask 16 base,
        bit_and_mask 8 (base / 2 ^ 16),
        bit_and_mask 8 (base / 2 ^ 24),
      ),
      omega (arith, g, bit_and_mask 16 limit),
      omega (arith, g),
      refl,
    )

-- After `load_gdt` and `load_ring3_segments`, entries 1 to 4 have base 0, limit 0xFFFFF, flags 0xC
-- and privilege level 0 (entries 1 and 2) or 3 (entries 3 and 4).
segments_flat :
    (address : ℕ) (gdt : Gdt) (tss : TaskState) (n : ℕ)
    → 1 ≤ n
    → n ≤ 4
    → let e = (load_ring3_segments address (load_gdt gdt, tss)).0 n in
      (base_of e ≡ 0)
      × (limit_of e ≡ 0xFFFFF)
      × (flags_of e ≡ 0xC)
      × (e.access / 32 % 4 ≡ (if n / 3 == 0 then 0 else 3))
unfolding load_ring3_segments load_gdt gate set_gdt_gate
segments_flat address gdt tss n low high = ground arith
