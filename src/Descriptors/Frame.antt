-- ===== src/Descriptors/Frame.antt =====
-- The saved registers of arch/x86_64/include/interrupts/stackframe.h, and what the handlers of
-- arch/x86_64/src/kernel_exceptions.c and idt.c log.
use raccoon_exok.Common.{ℕ, Bool, List, ◌∷◌}

pub record Stackframe : Type 0 where
  pub r15 : ℕ
  pub r14 : ℕ
  pub r13 : ℕ
  pub r12 : ℕ
  pub r11 : ℕ
  pub r10 : ℕ
  pub r9 : ℕ
  pub r8 : ℕ
  pub rbp : ℕ
  pub rdi : ℕ
  pub rsi : ℕ
  pub rdx : ℕ
  pub rcx : ℕ
  pub rbx : ℕ
  pub rax : ℕ
  pub int_no : ℕ
  pub err_code : ℕ
  pub rip : ℕ
  pub cs : ℕ
  pub align3 : ℕ
  pub align4 : ℕ
  pub rflags : ℕ
  pub useresp : ℕ
  pub ss : ℕ

-- The lines of the log, each with the values that are printed; `stackframe` is `log_stackframe`.
pub data Report : Type 0 where
  div_by_zero gpf page_fault : (int_no : ℕ) → Report
  page_fault_due : (protection write_access userspace : Bool) → Report
  faulty_address : ℕ → Report
  invalid_opcode debugging breakpoint : (rip : ℕ) → Report
  end_of_debug end_of_breakpoint keep_kalm calling_null_isr : Report
  switching_debug_mode : (enabled : Bool) → Report
  stackframe : Stackframe → Report

-- The core in an interrupt: the saved registers, the register CR2, and the log, the latest line
-- first.
pub record Interrupted : Type 0 where
  pub regs : Stackframe
  pub cr2 : ℕ
  pub log : List Report

abbrev pub report : Report → Interrupted → Interrupted
report r s = record s { log = r ∷ s.log }

-- A handler returns, or stops the core in `hlt` for good; `outside` is a call through a place
-- outside of the table.
pub data Ending : Type 0 where
  returns stops : Interrupted → Ending
  outside : Ending
