-- ===== src/Lib.antt =====
-- MikeOS: a small 32-bit x86 kernel. This library models the parts of it that compute, and states
-- what they guarantee, and where they do not do what they are meant to.
--
-- The parts, from the bottom up. kernel/mm/early_paging_manager.c builds the page tables of the boot.
-- libc/memory.c copies and fills memory and works on the bits of bytes. With
-- kernel/mm/bitmap_manipulation.c it serves the two page allocators:
-- kernel/mm/physical_mm_manager.c hands out physical pages by a bitmap of the 4 GB, and
-- kernel/mm/kheap.c hands out pages of the kernel's heap by a second bitmap and maps physical
-- pages to them. kernel/mm/kmalloc.c cuts these pages into blocks in a list of free blocks.
-- kernel/gdt.c and kernel/multitask/userspace_manager.c fill the descriptor table, kernel/idt.c and
-- kernel/irq.c the interrupt table. kernel/dev/device.c keeps the block devices. kernel/fs/file.c
-- reads and positions open files over a file system such as kernel/fs/initrd.c, which finds its
-- files by libc/string.c. kernel/mm/virtual_mm_manager.c builds page directories and maps pages for
-- the user, taking physical pages; kernel/multitask/elf_loader.c checks a file, maps its segments by
-- mmap and reads them by file_read. kernel/drivers/ata/ata.c finds the disks, registers them and moves
-- sectors through the ports, kernel/drivers/keyboard/keyboard_driver.c reads keys from them. kernel/data_structures/list.c is the list of pointers. libc/stdio.c
-- prints by a format to the console of kernel/drivers/vga/vga.c, and kernel/logging/logger.c logs through it.
-- kernel/fs/vfs.c mounts a file system at "/" and opens paths in it; kernel/multitask/task.c makes
-- tasks from an address space, a kernel stack and a program.
--
-- The files. Base holds what all share: tests and lists on the native numbers, machine words
-- (u8, u16, u32, sub32, shifts), bit masks, maps with `write`, integers, chains of links, results
-- that C leaves undefined (`Outcome`), and `ErrorCode`.
--   Memory    libc/memory.c: memcpy, memset, extract_bit, get_msb_index, turn_bit(s)_on/off
--   Bitmap    kernel/mm/bitmap_manipulation.c and the page macros of include/common.h
--   Physical  kernel/mm/physical_mm_manager.c: the record PhysicalMem is physical_memory
--   Kheap     kernel/mm/kheap.c: the record Kheap is the bitmap, the heap's page table and the
--             physical memory
--   Kmalloc   kernel/mm/kmalloc.c: Blocks is the list of free blocks, Slot a pointer to a pointer
--   Strings   libc/string.c, over a memory of bytes
--   Gdt       kernel/gdt.c, kernel/multitask/userspace_manager.c
--   Idt       kernel/idt.c, kernel/irq.c: port writes are a list
--   Device    kernel/dev/device.c
--   Early     kernel/mm/early_paging_manager.c, with memory as words at byte addresses
--   File      kernel/fs/file.c and vfs_read of kernel/fs/vfs.c
--   Vfs       kernel/fs/vfs.c: the mount points, with the walk of vfs_open
--   FileOpen  file_open and file_write of kernel/fs/file.c, and the file system of kernel/entry.c; in
--             FileOpen/Ramdisk the way from a path to the bytes of a file
--   Task      kernel/multitask/task.c, and alloc_virtual_address_space and free_virtual_address_space of
--             kernel/mm/virtual_mm_manager.c, over an interface of the parts that they call
--   Entry     make_initrd_fs of kernel/entry.c
--   Syscall   kernel/syscall.c: the gate of the system calls
--   Initrd    kernel/fs/initrd.c
--   Vga       kernel/drivers/vga/vga.c
--   Elf       kernel/multitask/elf_loader.c: the checks of the header, in Elf/Load the segments
--   VirtualMemory  kernel/mm/virtual_mm_manager.c: AddressSpace is the recursive view of CR3; the page
--             tables that are made when no physical page is left are one and the same, in page 0
--   LinkedList     kernel/data_structures/list.c, over a store of nodes
--   PortAccess     include/port_io/port_io.h as an interface, and the monad of a driver
--   Ata       kernel/drivers/ata/ata.c: reading and writing, in Ata/Init finding the drives; Ata/Drive
--             says what the driver relies on of a drive; how often it must read the status between two
--             sectors is a number of the drive, which the standard does not bound
--   Keyboard  kernel/drivers/keyboard/keyboard_driver.c: the keys and the interrupt
--   Printf    libc/stdio.c: prints and printi, in Printf/Format the loop of print; a format and its strings
--             are lists, Printf/Directives says what a format means
--   Log       kernel/logging/logger.c and printf: log_print to the console
--   Examples  the theorems at concrete states
-- A function of C has its name here; the body of a loop is a function named after the loop's
-- function or its subject, with `_loop`. State is passed and returned explicitly.
--
-- Bounds and fuel. Every number is a native ℕ, and an operation of C that can wrap around says so
-- by u8, u16, u32 or sub32. A loop over an index recurses on the rounds that are left, which C
-- fixes before the loop. A loop over a string, and a walk of the list of free blocks, recurses on
-- fuel, with `none` where it runs out: the theorems about them ask for more fuel than the string
-- or the list is long, and give a result. The digits of a number get 33 rounds, enough for 32 bits.
-- An `int` counter does not overflow in the ranges that the code uses.
--
-- `mmap` gets fuel for its pages, the waits of the disk driver for the drive's delay; both are shown
-- to end then.
--
-- A format is read on fuel for its length. `vfs_open` gets fuel for the strings and for the walk, of
-- which two rounds are enough while nothing is mounted below the root.
--
-- What is not modelled: the assembly (port instructions, lgdt, lidt, invlpg, the stubs of interrupts), the
-- log lines of the other parts, kmain of kernel/entry.c, which calls the parts in turn, the
-- handlers of kernel/exceptions.c, which are empty, the handler of system calls, which prints and never
-- returns, and the FAT32 code, which is switched off in the source. The page allocator is a parameter
-- of Kmalloc, the answer of kmalloc one of Initrd, LinkedList, Vfs and
-- FileOpen, the disk drive one of Ata. What the stack and the registers hold
-- where the code does not set them (the value of initialize_list, the list of vfs_open) is an argument.
pub mod Base
pub mod Ata
pub mod PortAccess
pub mod Keyboard
pub mod Log
pub mod VirtualMemory
pub mod Memory
pub mod Bitmap
pub mod Physical
pub mod Kheap
pub mod Kmalloc
pub mod Strings
pub mod Gdt
pub mod Idt
pub mod Device
pub mod Early
pub mod File
pub mod LinkedList
pub mod Initrd
pub mod Vfs
pub mod FileOpen
pub mod Task
pub mod Syscall
pub mod Entry
pub mod Vga
pub mod Elf
pub mod Printf
pub mod Examples
