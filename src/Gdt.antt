-- ===== src/Gdt.antt =====
-- kernel/gdt.c and the descriptors of kernel/multitask/userspace_manager.c. The loads of segment
-- registers and of the task register are not part of the state.
pub mod Fields
use mike_os.Base.{
  ℕ, ◌+◌, ◌-◌, ◌*◌, ◌/◌, ◌%◌, ◌^◌, bit_and, bit_or, u8, u16, u32, write, ◌>>>◌, ◌<<<◌,
}

-- `struct gdt_entry`.
pub record GdtEntry : Type 0 where
  pub limit_low : ℕ
  pub base_low : ℕ
  pub base_middle : ℕ
  pub access : ℕ
  pub granularity : ℕ
  pub base_high : ℕ

abbrev pub Gdt : Type 0
Gdt = ℕ → GdtEntry

-- `set_gdt_gate`, and `early_set_gdt_gate`, which differs in the address of the table.
unfoldable pub gate : ℕ → ℕ → ℕ → ℕ → GdtEntry
gate base limit access gran = record {
  base_low = u16 (bit_and base 0xFFFF);
  base_middle = u8 (bit_and (base >>> 16) 0xFF);
  base_high = u8 (bit_and (base >>> 24) 0xFF);
  limit_low = u16 (bit_and limit 0xFFFF);
  granularity = u8 (bit_or (u8 (bit_and (limit >>> 16) 0x0F)) (bit_and gran 0xF0));
  access = access;
}

unfoldable pub set_gdt_gate : ℕ → ℕ → ℕ → ℕ → ℕ → Gdt → Gdt
unfolding gate
set_gdt_gate num base limit access gran gdt = write gdt num (gate base limit access gran)

-- The flags of include/gdt.h. `1 << 7 | GDT__ON_BIT` is `(1 << 7) | (1 << 4)`.
abbrev pub gdt_on_bit : ℕ
gdt_on_bit = 16

abbrev pub gdt_present : ℕ
gdt_present = bit_or 128 gdt_on_bit

abbrev pub gdt_ring3 : ℕ
gdt_ring3 = bit_or 96 gdt_on_bit

abbrev pub gdt_ring0 : ℕ
gdt_ring0 = bit_or 0 gdt_on_bit

abbrev pub gdt_executable : ℕ
gdt_executable = bit_or 8 gdt_on_bit

abbrev pub gdt_readable_writeable : ℕ
gdt_readable_writeable = bit_or 2 gdt_on_bit

-- The table that `load_gdt` fills in.
unfoldable pub load_gdt : Gdt → Gdt
unfolding set_gdt_gate
load_gdt gdt =
    let null_gate = set_gdt_gate 0 0 0 0 0 gdt in
    let code =
      set_gdt_gate 1 0 0xFFFFFFFF
        (bit_or (bit_or (bit_or gdt_present gdt_ring0) gdt_readable_writeable) gdt_executable) 0xCF
        null_gate in
    set_gdt_gate 2 0 0xFFFFFFFF (bit_or (bit_or gdt_present gdt_ring0) gdt_readable_writeable) 0xCF
      code

-- The part of `tss_struct_t` that is written, and the address of `task_state`.
pub record TaskState : Type 0 where
  pub esp0 : ℕ
  pub ss0 : ℕ

-- `sizeof(tss_struct_t)`.
abbrev pub tss_size : ℕ
tss_size = 104

unfoldable pub load_task_state_segment : ℕ → Gdt × TaskState → Gdt × TaskState
unfolding set_gdt_gate
load_task_state_segment address (gdt, tss) =
    (set_gdt_gate 5 address (u32 (address + tss_size - 1)) 0xe9 0x00 gdt, record tss { ss0 = 0x10 })

unfoldable pub load_ring3_segments : ℕ → Gdt × TaskState → Gdt × TaskState
unfolding set_gdt_gate load_task_state_segment
load_ring3_segments address (gdt, tss) =
    let code =
      set_gdt_gate 3 0 0xFFFFFFFF
        (bit_or (bit_or (bit_or gdt_present gdt_ring3) gdt_readable_writeable) gdt_executable) 0xCF
        gdt in
    let user =
      set_gdt_gate 4 0 0xFFFFFFFF (bit_or (bit_or gdt_present gdt_ring3) gdt_readable_writeable)
        0xCF code in
    load_task_state_segment address (user, tss)

unfoldable pub set_kernel_stack : ℕ → TaskState → TaskState
set_kernel_stack address tss = record tss { esp0 = address }
