-- ===== src/Descriptors/Exceptions.antt =====
-- arch/x86_64/src/kernel_exceptions.c: the handlers of the exceptions.
use raccoon_exok.Common.{
  ℕ, zero, suc, ◌-◌, ◌*◌, ◌^◌, ◌≤◌, ◌<◌, ◌≡◌, ◌≢◌, refl, ap, ◌∙◌, Bool, not, bit_and, bit_xor, ◌==◌,
  if◌then◌else◌, ◌∷◌, arith,
}
use native.Mathlib.Nat.{one-le-pow}
use raccoon_exok.Common.Bits.Single.{bit, bit-pow, bit-bit_xor, bit-le-one, bit_and-pow}
use raccoon_exok.Descriptors.Frame.{
  Report, Interrupted, Ending, returns, stops, report, div_by_zero, gpf, page_fault, page_fault_due,
  faulty_address, invalid_opcode, debugging, breakpoint, end_of_debug, end_of_breakpoint, keep_kalm,
  switching_debug_mode, stackframe,
}
use raccoon_exok.Descriptors.Handlers.{Isr, attach_isr, isr_handler, isr_handler-attach_isr}

-- `while(1) asm volatile("hlt")` is the end of the handlers that panic.
unfoldable pub panic_common_stub : Interrupted → Ending
panic_common_stub s = stops (report (stackframe s.regs) (report keep_kalm s))

unfoldable pub k_div_by_zero : Interrupted → Ending
k_div_by_zero s = panic_common_stub (report (div_by_zero s.regs.int_no) s)

unfoldable pub k_gpf : Interrupted → Ending
k_gpf s = panic_common_stub (report (gpf s.regs.int_no) s)

-- `x & mask ? … : …`
abbrev pub test : (x mask : ℕ) → Bool
test x mask = not (bit_and x mask == 0)

unfoldable pub k_page_fault : Interrupted → Ending
k_page_fault s =
    let due =
      page_fault_due (test s.regs.err_code 0b0001) (test s.regs.err_code 0b0010)
        (test s.regs.err_code 0b0100) in
    panic_common_stub
      (report (faulty_address s.cr2) (report due (report (page_fault s.regs.int_no) s)))

unfoldable pub k_invalid_opcode : Interrupted → Ending
k_invalid_opcode s = panic_common_stub (report (invalid_opcode s.regs.rip) s)

unfoldable pub k_debug : Interrupted → Ending
k_debug s =
    returns (report end_of_debug (report (stackframe s.regs) (report (debugging s.regs.rip) s)))

unfoldable pub k_breakpoint : Interrupted → Ending
k_breakpoint s =
    returns
      (report end_of_breakpoint (report (stackframe s.regs) (report (breakpoint s.regs.rip) s)))

unfoldable pub change_debug_mode : Interrupted → Ending
change_debug_mode s =
    let t = report (switching_debug_mode (test s.regs.rflags (2 ^ 8))) s in
    returns (record t { regs = record s.regs { rflags = bit_xor s.regs.rflags (2 ^ 8) } })

unfoldable pub attach_kernel_exceptions : Isr → Isr
attach_kernel_exceptions isr = attach_isr 127 change_debug_mode (
    attach_isr 14 k_page_fault (
      attach_isr 13 k_gpf (
        attach_isr 6 k_invalid_opcode
          (attach_isr 3 k_breakpoint (attach_isr 1 k_debug (attach_isr 0 k_div_by_zero isr))))))

digit_test : (b p : ℕ) → b ≤ 1 → 0 < p → not (b * p == 0) ≡ (b == 1)
digit_test zero p h pos = ground arith
digit_test (suc zero) p h pos = ground arith
digit_test (suc (suc b)) p h pos = absurd (omega arith)

test-bit : (x k : ℕ) → test x (2 ^ k) ≡ (bit x k == 1)
test-bit x k =
    ap (λ (y : ℕ). not (y == 0)) (bit_and-pow x k)
    ∙ digit_test (bit x k) (2 ^ k) (bit-le-one x k) (one-le-pow k 2 (omega arith))

-- What the handlers log before they stop or return, and whether they do.
abbrev panics : Report → Interrupted → Ending
panics r s = stops (report (stackframe s.regs) (report keep_kalm (report r s)))

-- The lines of a page fault, by the bits of the processor's error code.
abbrev page_fault_lines : Interrupted → Interrupted
page_fault_lines s =
    let code = s.regs.err_code in
    let due = page_fault_due (bit code 0 == 1) (bit code 1 == 1) (bit code 2 == 1) in
    report due (report (page_fault s.regs.int_no) s)

k_page_fault-stops :
    (s : Interrupted) → k_page_fault s ≡ panics (faulty_address s.cr2) (page_fault_lines s)
unfolding k_page_fault panic_common_stub
k_page_fault-stops s =
    let code = s.regs.err_code in
    let ended : Bool → Bool → Bool → Ending = λ a b c.
      panics (faulty_address s.cr2)
        (report (page_fault_due a b c) (report (page_fault s.regs.int_no) s)) in
    ap (λ a. ended a (test code 2) (test code 4)) (test-bit code 0)
    ∙ ap (λ b. ended (bit code 0 == 1) b (test code 4)) (test-bit code 1)
    ∙ ap (λ c. ended (bit code 0 == 1) (bit code 1 == 1) c) (test-bit code 2)

-- `s` goes on with the bit 8 of the flags, the single-step bit, turned over, its old value logged, and
-- all else as it was.
pub record IsToggled (s t : Interrupted) : Type 0 where
  pub step_bit : bit t.regs.rflags 8 ≡ 1 - bit s.regs.rflags 8
  pub other_bits : (k : ℕ) → k ≢ 8 → bit t.regs.rflags k ≡ bit s.regs.rflags k
  pub others : record t.regs { rflags = s.regs.rflags } ≡ s.regs
  pub address : t.cr2 ≡ s.cr2
  pub logged : t.log ≡ switching_debug_mode (bit s.regs.rflags 8 == 1) ∷ s.log

toggled-bit :
    (flags k : ℕ)
    → bit (bit_xor flags (2 ^ 8)) k ≡ (if k == 8 then 1 - bit flags k else bit flags k)
toggled-bit flags k = ground (arith, bit-bit_xor flags (2 ^ 8) k, bit-pow 8 k, bit-le-one flags k)

change_debug_mode-IsToggled :
    (s : Interrupted) → (t : Interrupted) × (change_debug_mode s ≡ returns t) × IsToggled s t
unfolding change_debug_mode
change_debug_mode-IsToggled s = (
  record (report (switching_debug_mode (test s.regs.rflags (2 ^ 8))) s) {
    regs = record s.regs { rflags = bit_xor s.regs.rflags (2 ^ 8) };
  },
  refl,
  record {
    step_bit = toggled-bit s.regs.rflags 8;
    other_bits = λ k ne. ground (arith, toggled-bit s.regs.rflags k);
    others = refl;
    address = refl;
    logged = ap (λ b. switching_debug_mode b ∷ s.log) (test-bit s.regs.rflags 8);
  },
)

-- What an interrupt does, by its number, where `old` is what it did before and `toggled` what
-- interrupt 127 leaves.
abbrev handled : (n : ℕ) (s : Interrupted) → (old toggled : Ending) → Ending
handled n s old toggled =
    if n == 0
    then panics (div_by_zero n) s
    else if n == 1
    then returns
        (report end_of_debug (report (stackframe s.regs) (report (debugging s.regs.rip) s)))
    else if n == 3
    then returns
        (report end_of_breakpoint (report (stackframe s.regs) (report (breakpoint s.regs.rip) s)))
    else if n == 6
    then panics (invalid_opcode s.regs.rip) s
    else if n == 13
    then panics (gpf n) s
    else if n == 14
    then panics (faulty_address s.cr2) (page_fault_lines s)
    else if n == 127
    then toggled
    else old

-- After `attach_kernel_exceptions` a division by zero, an invalid opcode, a general protection
-- fault and a page fault each log their own line and the registers and stop the core for good, a
-- page fault also the address in CR2 and the three causes, which are the bits 0, 1 and 2 of the
-- error code; a debug exception and a breakpoint log theirs and return with the registers as they
-- were; interrupt 127 logs the single-step bit of the flags, turns over this bit and returns with all
-- else as it was; and every other interrupt does what it did before.
pub isr_handler-exceptions :
    (isr : Isr) (s : Interrupted)
    → (t : Interrupted) × IsToggled s t
      × (isr_handler (attach_kernel_exceptions isr) s
          ≡ handled s.regs.int_no s (isr_handler isr s) (returns t))
unfolding attach_kernel_exceptions k_div_by_zero k_debug k_breakpoint k_invalid_opcode k_gpf
    panic_common_stub
isr_handler-exceptions isr s =
    let (t, toggles, toggled) = change_debug_mode-IsToggled s in
    let n = s.regs.int_no in
    let h1 = attach_isr 0 k_div_by_zero isr in
    let h2 = attach_isr 1 k_debug h1 in
    let h3 = attach_isr 3 k_breakpoint h2 in
    let h4 = attach_isr 6 k_invalid_opcode h3 in
    let h5 = attach_isr 13 k_gpf h4 in
    let h6 = attach_isr 14 k_page_fault h5 in
    (
      t,
      toggled,
      ground (
        arith,
        toggles,
        k_page_fault-stops s,
        isr_handler-attach_isr 127 change_debug_mode h6 s (omega arith),
        isr_handler-attach_isr 14 k_page_fault h5 s (omega arith),
        isr_handler-attach_isr 13 k_gpf h4 s (omega arith),
        isr_handler-attach_isr 6 k_invalid_opcode h3 s (omega arith),
        isr_handler-attach_isr 3 k_breakpoint h2 s (omega arith),
        isr_handler-attach_isr 1 k_debug h1 s (omega arith),
        isr_handler-attach_isr 0 k_div_by_zero isr s (omega arith),
      ),
    )
