-- ===== src/Lib.antt =====
-- Raccoon-exok is a small exokernel for x86_64. A boot loader hands over a memory map; the physical
-- memory manager numbers the frames of its usable regions and hands them out; the virtual memory
-- manager maps them; capability and init files name the resources and the program of each core;
-- programs take and release capabilities by system calls.
--
-- Which file models which part (paths from the repository's root):
--
-- - Common: lists, words, bits, and `Run`, the outcome of a run of C code: `ok`, `halted` for a panic
--   that stops the core, `fault` for an access outside an array or to unmapped memory, `out_of_fuel`.
-- - Locks: src/kernel/include/multicore/lock.h as steps of any number of cores on one lock, and
--   src/kernel/src/interrupt_lock.c, whose level of each core stands beside the core's interrupt flag.
-- - Numbers: src/kernel/src/utils/string/convert.c, `atou` of src/kernel/src/parse_init.c and `strtoul` of
--   src/kernel/src/parse_capability_map.c, over the byte memory. Printing a number of 64 bits takes at most
--   21 rounds in base 10 and 17 in base 16; reading takes one round more than there are digits.
-- - Vmm: src/arch/x86_64/src/vmm.c on one core. Address and Flags have the fields of an address and the
--   mapping flags; Paging is the processor's walk over the tables; Window the addresses of their entries;
--   Search, Map and Unmap the functions. No large page is modelled: an entry with bit 7 leads to no table.
--   The loader maps the first 2 GiB at `0xffffffff80000000`; the page directories that vmm.c makes are
--   accessed there, and a directory behind them is a `fault`. The searches run on fuel, since their
--   loops may have no end.
-- - Space: src/kernel/src/vmmwrapper.c on one core; a round of waiting for the lock takes one of the fuel.
-- - Initfs: src/kernel/src/initfs.c. The array `initrd_files` stands in the byte memory with the names of
--   its entries; a comparison with such a name takes at most 128 rounds.
-- - Descriptors: src/arch/x86_64/src/gdt.c, and src/arch/x86_64/src/idt.c, where the assembly routines
--   that the entries point to, the end of interrupt signal and the handlers are parameters; Segments has
--   `setup_gdt` with `syscall_initialize` of src/arch/x86_64/src/syscall.c, and Exceptions the handlers of
--   src/arch/x86_64/src/kernel_exceptions.c, on the state of an interrupted core of Frame: the saved
--   registers, the register CR2 and the log of what was reported.
-- - Registers: src/arch/x86_64/src/cpu_regs.c; a comparison with one of its names takes at most 7 rounds.
-- - Acpi: `checksum` and `parse_MADT` of src/arch/x86_64/src/rsdt.c over the byte memory, and in Redirect
--   `redirect_interrupts` of src/arch/x86_64/src/apic.c on the registers of the I/O APIC. More rounds than
--   the table has entries are enough, when none of them has the length 0.
-- - Main: `kernel_main` of src/kernel/src/main.c behind `parse_init`, up to its jumps to programs, and
--   src/kernel/src/pmap_recorder.c; Start joins it to the parser of the init file. A comparison of names takes more fuel than the first name has characters.
-- - Serial: src/arch/x86_64/src/serial.c, with the device that answers the reads as a parameter; the waits
--   take fuel as an argument.
-- - Bootload: the old 32-bit loader of src/arch/x86_64/bootload. Console is the state; Screen, Output,
--   Format and Keyboard are scrn.c and seriesport.c, Interrupts is isr.c and irq.c, Tables is gdt.c and
--   idt.c, Multiboot is convert.c. A number of 32 bits takes at most 10 decimal, 8 hexadecimal or 32
--   binary rounds, so that the fuel in these functions is never used up; the wait for the serial port
--   and the erasing of a line take fuel as an argument.
-- - Parse: src/kernel/src/parse_init.c and, in Sections, src/kernel/src/parse_capability_map.c, over the
--   byte memory; more rounds than the file has bytes are enough for the loops over its lines.
-- - Memory, Strings: bytes at addresses, `memset` and `memcpy` of src/kernel/src/utils/gcc/memory.c
--   (Memory/Blocks), and the string routines of src/kernel/src/utils/string/string.c,
--   src/kernel/src/initfs.c, src/kernel/src/capability_recorder.c and
--   src/kernel/src/parse_capability_map.c. A loop whose end the text decides runs on fuel; any fuel above
--   the length of the text is enough.
-- - Capability: src/kernel/src/capability_recorder.c. `get_capability` and `release_capability` walk the
--   table `caps`; Record has the loop of `init_capabilities_record`; Race has
--   the same code as interleaved accesses of several cores.
-- - Pmm: src/arch/x86_64/src/pmm.c. The record `Pmm` has the file's static variables; each function of the
--   file is a function on it. `frame_at` (Pmm/Regions) is the numbering of frames that the code implements.
--   The scan of a word has 64 rounds of fuel, which a word that is not full never uses up.
-- - Tags: `stivale2_get_tag` of src/arch/x86_64/src/tagmgr.c; more fuel than there are tags is enough.
-- - Syscall: src/kernel/src/syscall_handler.c on the table of capabilities.
--
-- Not modelled: logging but that of the exception handlers, assembly and device access other than the ports of Bootload and Serial and the
-- redirection registers of Acpi; the launch of programs, src/kernel/src/launch.c, and the page for
-- programs of src/kernel/src/protocol_init.c; the search for the ACPI tables, the HPET and the start of
-- the cores. The bitmap of the frames is kept apart from the memory that `get_frame` clears.
pub mod Capability
pub mod Common
pub mod Acpi
pub mod Bootload
pub mod Descriptors
pub mod Initfs
pub mod Locks
pub mod Numbers
pub mod Memory
pub mod Parse
pub mod Pmm
pub mod Registers
pub mod Main
pub mod Serial
pub mod Space
pub mod Strings
pub mod Syscall
pub mod Tags
pub mod Vmm
