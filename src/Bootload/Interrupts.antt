-- ===== src/Bootload/Interrupts.antt =====
-- The exceptions of arch/x86_64/bootload/isr.c and the device interrupts of arch/x86_64/bootload/irq.c.
pub mod Served
use raccoon_exok.Common.{
  ℕ, ◌-◌, ◌+◌, ◌^◌, ◌==◌, ltb, if◌then◌else◌, List, [], ◌∷◌, Option, none, some, get_elem?,
}
use raccoon_exok.Common.Run.{Run, ok, fault, ◌>>=◌}
use raccoon_exok.Common.Word.{u32}
use raccoon_exok.Bootload.Console.{Console, outb, bytes}
use raccoon_exok.Bootload.Output.{puts}
use raccoon_exok.Bootload.Format.{word, put_screen, printf, sprintf}
use raccoon_exok.Bootload.Keyboard.{keyboard_handling}

-- The registers of `struct cpu` in isr.c.
pub record Cpu : Type 0 where
  pub edi : ℕ
  pub esi : ℕ
  pub ebp : ℕ
  pub esp : ℕ
  pub ebx : ℕ
  pub edx : ℕ
  pub ecx : ℕ
  pub eax : ℕ
  pub eflags : ℕ
  pub gs : ℕ
  pub fs : ℕ
  pub es : ℕ
  pub ds : ℕ
  pub ss : ℕ

-- The array `tab`: the code of the error and the number of the interrupt.
pub record Tab : Type 0 where
  pub code : ℕ
  pub nberr : ℕ

abbrev pub change_args : (nberr code : ℕ) → Tab
change_args nberr code = record { code = code; nberr = nberr }

-- The texts of `err0` to `err14`, `reserved`, and `err16` to `err19`, in the order of `jumptable`.
abbrev pub jumptable : List (List ℕ)
jumptable =
    bytes "Exception : Division by zero."
    ∷ bytes "Exception : Debug exception."
    ∷ bytes "Exception : Non maskable interrupt."
    ∷ bytes "Breakpoint."
    ∷ bytes "Exception : Overflow exception."
    ∷ bytes "Exception : Bound range exceeded."
    ∷ bytes "Exception : Invalid Opcode."
    ∷ bytes "Exception : Math Coprocessor not available."
    ∷ bytes "Exception : Double Fault."
    ∷ bytes "Exception : Coprocessor segment overrun."
    ∷ bytes "Exception : Invalid TSS (task-state segment)."
    ∷ bytes "Exception : Missing segment."
    ∷ bytes "Exception : Stack-segment fault exception."
    ∷ bytes "Exception : General protection fault."
    ∷ bytes "Exception : Page fault."
    ∷ bytes "RESERVED."
    ∷ bytes "Exception: Floating-point Error."
    ∷ bytes "Exception : ALigment Check exception."
    ∷ bytes "Exception : Machine Check exception."
    ∷ bytes "Exception : SIMD Floating-point exception."
    ∷ []

-- `jumptable[tab[1]]()`: the text on the screen, then `cli` and `hlt`, where the loader stays with
-- the state that is the result. The index is not checked.
unfoldable pub jump : Tab → Console → Run Console
jump tab s = elim (get_elem? jumptable tab.nberr) [
  | none ↦ fault
  | some text ↦ puts put_screen text s
]

module _ (inb : ℕ → Console → ℕ) (fuel : ℕ) where
  abbrev pub log_line : List ℕ → Console → Run Console
  log_line str = sprintf inb fuel str []

  -- `Regs_log`; `edx` is printed for eax and `es` for ss.
  unfoldable pub regs_log : Cpu → Tab → Console → Run Console
  regs_log c tab s = do
    s ← log_line (bytes "________Registers popa_______\n") s
    s ← log_line (bytes "\n") s
    s ←
        sprintf inb fuel (bytes "edi = %x\nesi = %x\nebp = %x\nesp = %x\nebx = %x\nedx = %x\n")
          (word c.edi ∷ word c.esi ∷ word c.ebp ∷ word c.esp ∷ word c.ebx ∷ word c.edx ∷ []) s
    s ← sprintf inb fuel (bytes "ecx = %x\neax = %x\n") (word c.ecx ∷ word c.edx ∷ []) s
    s ← log_line (bytes "\n") s
    s ← log_line (bytes "________Eflags value_________\n") s
    s ← log_line (bytes "\n") s
    s ← sprintf inb fuel (bytes "eflags = %x\n") (word c.eflags ∷ []) s
    s ← log_line (bytes "\n") s
    s ← log_line (bytes "_______Interrupt code________\n") s
    s ← log_line (bytes "\n") s
    s ←
        sprintf inb fuel (bytes "error number = %x\nerror code = %x\n")
          (word tab.nberr ∷ word tab.code ∷ []) s
    s ← log_line (bytes "\n") s
    s ← log_line (bytes "_______Regulars registers____\n") s
    s ← log_line (bytes "\n") s
    sprintf inb fuel (bytes "gs = %x\nfs = %x\nes = %x\nds = %x\nes = %x\n")
        (word c.gs ∷ word c.fs ∷ word c.es ∷ word c.ds ∷ word c.es ∷ []) s

  -- `Basic_isr_handling`
  unfoldable pub basic_isr_handling : Cpu → Tab → Console → Run Console
  basic_isr_handling context tab s = regs_log context tab s >>= jump tab

module _ (inb : ℕ → Console → ℕ) where
  -- `irqe0` to `irqe15`
  unfoldable pub irqe : (irq : ℕ) → Console → Run Console
  irqe irq s =
      if irq == 0
      then ok s
      else if irq == 1
      then keyboard_handling inb s
      else if ltb irq 16
      then printf (bytes "IRQ %u triggered\n") (word irq ∷ []) s
      else fault

  -- `jumptableirq[tab[1] - 32]()` and the end of interrupt; the index is unsigned and not checked.
  unfoldable pub basic_irq_handling : Tab → Console → Run Console
  basic_irq_handling tab s = do s ← irqe (u32 (tab.nberr + 2 ^ 32 - 32)) s; ok (outb 0x20 0x20 s)

-- `Irq_remap`: both controllers get the interrupt numbers from 0x20 and from 0x28 on.
unfoldable pub irq_remap : Console → Console
irq_remap s =
    let s = outb 0xa0 0x11 (outb 0x20 0x11 s) in
    let s = outb 0xa1 0x28 (outb 0x21 0x20 s) in
    let s = outb 0xa1 0x02 (outb 0x21 0x04 s) in
    let s = outb 0xa1 0x01 (outb 0x21 0x01 s) in outb 0xa1 0x00 (outb 0x21 0x00 s)
