-- ===== src/Syscall.antt =====
-- kernel/syscall.c: the gate of the system calls. `default_system_call_handler` prints a line and never
-- returns, and is left out.
use mike_os.Base.{ℕ, bit_or}
use mike_os.Idt.{Idt, kernel_code_segment, load_idt_entry}

abbrev pub syscall_idt_entry : ℕ
syscall_idt_entry = 0x80

-- `IDT__PRESENT | IDT__RING3 | IDT__INTERRUPT_GATE`.
abbrev pub syscall_flags : ℕ
syscall_flags = bit_or (bit_or 128 96) 0x0e

-- `interrupt_80` is the address of the assembly stub.
unfoldable pub system_calls_init : ℕ → Idt → Idt
unfolding load_idt_entry
system_calls_init interrupt_80 idt_table =
    load_idt_entry syscall_idt_entry interrupt_80 kernel_code_segment syscall_flags idt_table
