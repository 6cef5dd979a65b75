-- ===== src/Descriptors/Tests.antt =====
-- The entry of the user's code, and interrupts of a core with all registers empty but a few.
use raccoon_exok.Common.{◌%◌, ◌^◌, ◌≡◌, refl, some, none, false, true, [], ◌∷◌, arith}
use raccoon_exok.Common.Run.{ok}
use raccoon_exok.Registers.{CpuRegs, struct_cpu_regs_interface_get}
use raccoon_exok.Registers.Lookup.{IsRegs, before}
use raccoon_exok.Registers.Tests.{literals, empty, literals-Texts}
use raccoon_exok.Descriptors.Handlers.{isr_handler, attach_isr}
use raccoon_exok.Descriptors.Frame.{
  Stackframe, Interrupted, returns, stops, page_fault, page_fault_due, faulty_address, keep_kalm,
  stackframe,
}
use raccoon_exok.Descriptors.Exceptions.{
  attach_kernel_exceptions, k_page_fault, panic_common_stub, IsToggled, isr_handler-exceptions,
}
use raccoon_exok.Descriptors.Segments.{
  Gdt, setup_gdt, syscall_initialize, msr_star, Selected, setup_gdt-Selected,
}
use raccoon_exok.Descriptors.Gdt.{
  create_gdt_entry, descriptor, base_of, limit_of, access_of, granularity_of,
  descriptor-create_gdt_entry,
}

descriptor-create_gdt_entry_example :
    let w = descriptor (create_gdt_entry 0x12345678 0xabcde 2 0b11111010) in
    (base_of w ≡ 0x12345678)
    × (limit_of w ≡ 0xabcde % 2 ^ 20)
    × (access_of w ≡ 0b11111010)
    × (granularity_of w ≡ 2 % 2 ^ 4)
descriptor-create_gdt_entry_example =
    descriptor-create_gdt_entry 0x12345678 0xabcde 2 0b11111010 (omega arith) (omega arith)

-- Interrupt 127 with the flags 2, before any handler was attached.
abbrev frame : Stackframe
frame = record {
  r15 = 0;
  r14 = 0;
  r13 = 0;
  r12 = 0;
  r11 = 0;
  r10 = 0;
  r9 = 0;
  r8 = 0;
  rbp = 0;
  rdi = 0;
  rsi = 0;
  rdx = 0;
  rcx = 0;
  rbx = 0;
  rax = 0;
  int_no = 127;
  err_code = 0;
  rip = 0x1000;
  cs = 8;
  align3 = 0;
  align4 = 0;
  rflags = 2;
  useresp = 0;
  ss = 16;
}

abbrev interrupted : Interrupted
interrupted = record { regs = frame; cr2 = 0; log = [] }

isr_handler-exceptions_example :
    (t : Interrupted) × IsToggled interrupted t
    × (isr_handler (attach_kernel_exceptions (λ n. none)) interrupted ≡ returns t)
isr_handler-exceptions_example = isr_handler-exceptions (λ n. none) interrupted

-- A write by user code to a page that is not present.
abbrev in_page_fault : Interrupted
in_page_fault = record { regs = record frame { int_no = 14; err_code = 6 }; cr2 = 0x5000; log = [] }

page_fault_log :
    isr_handler (attach_kernel_exceptions (λ n. none)) in_page_fault
    ≡ stops (record in_page_fault {
      log =
          stackframe in_page_fault.regs
          ∷ keep_kalm
          ∷ faulty_address 0x5000
          ∷ page_fault_due false true true
          ∷ page_fault 14
          ∷ [];
    })
unfolding isr_handler attach_kernel_exceptions attach_isr k_page_fault panic_common_stub
page_fault_log = refl

abbrev no_entries : Gdt
no_entries = record {
  entries = λ n. record {
    limit0_15 = 0;
    base0_15 = 0;
    base16_23 = 0;
    flags = 0;
    limit16_19 = 0;
    granularity = 0;
    base24_31 = 0;
  };
  size = 0;
  offset = 0;
}

setup_gdt-Selected_example :
    (gdt' : Gdt) × (regs' : CpuRegs) × (setup_gdt literals 100 105 110 114 7 105 0x8000 0x9000
        no_entries empty
      ≡ ok (gdt', regs'))
    × IsRegs 100 105 110 114 regs'
    × (struct_cpu_regs_interface_get literals 100 105 110 114 7 105 0 regs'
        ≡ ok (some 0x9000, regs'))
    × Selected gdt'.entries (syscall_initialize 0xa000 (λ r. 0) msr_star)
setup_gdt-Selected_example =
    setup_gdt-Selected literals 100 105 110 114 7 105 0x8000 0x9000 0xa000 (λ r. 0) no_entries empty
      literals-Texts literals-Texts.1 (omega arith) (before refl)
