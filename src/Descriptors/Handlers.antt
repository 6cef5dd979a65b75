-- ===== src/Descriptors/Handlers.antt =====
-- arch/x86_64/src/idt.c: the handlers that are attached to interrupt numbers, and their calls.
use raccoon_exok.Common.{ℕ, ◌<◌, ◌≡◌, Option, none, some, ltb, ◌==◌, if◌then◌else◌, write, arith}
use raccoon_exok.Common.Word.{u8}
use raccoon_exok.Descriptors.Frame.{
  Interrupted, Ending, returns, stops, outside, report, calling_null_isr, stackframe,
}

-- The table of handlers; `none` is the null pointer.
abbrev pub Isr : Type 0
Isr = ℕ → Option (Interrupted → Ending)

unfoldable pub attach_isr : (interrupt_number : ℕ) → (Interrupted → Ending) → Isr → Isr
attach_isr interrupt_number isr_to_add isr = write isr (u8 interrupt_number) (some isr_to_add)

-- The null handler is logged and stops the core for good.
abbrev pub call_null : Interrupted → Ending
call_null s = stops (report (stackframe s.regs) (report calling_null_isr s))

-- `isr[regs.int_no]`, of 256 entries, is called.
unfoldable pub isr_handler : Isr → Interrupted → Ending
isr_handler isr s =
    if ltb s.regs.int_no 256
    then elim (isr s.regs.int_no) [ none ↦ call_null s | some cur_isr ↦ cur_isr s ]
    else outside

-- `cpu_send_EOI` tells the interrupt controller that the interrupt was handled.
abbrev pub and_signal : (cpu_send_EOI : Interrupted → Interrupted) → Ending → Ending
and_signal cpu_send_EOI (returns s) = returns (cpu_send_EOI s)
and_signal cpu_send_EOI (stops s) = stops s
and_signal cpu_send_EOI outside = outside

unfoldable pub irq_handler : (cpu_send_EOI : Interrupted → Interrupted) → Isr → Interrupted → Ending
unfolding isr_handler
irq_handler cpu_send_EOI isr s = and_signal cpu_send_EOI (isr_handler isr s)

-- After a handler was attached to an 8-bit number, an interrupt of that number runs it, and all
-- other interrupts do what they did before.
pub isr_handler-attach_isr :
    (n : ℕ) (f : Interrupted → Ending) (isr : Isr) (s : Interrupted)
    → n < 256
    → isr_handler (attach_isr n f isr) s ≡ (if n == s.regs.int_no then f s else isr_handler isr s)
unfolding attach_isr isr_handler
isr_handler-attach_isr n f isr s h = ground arith
