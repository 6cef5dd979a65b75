-- ===== src/Descriptors/Idt.antt =====
-- arch/x86_64/src/idt.c: the entries of the interrupt descriptor table.
use raccoon_exok.Common.{
  ℕ, zero, suc, ◌+◌, ◌*◌, ◌^◌, ◌<◌, ◌≡◌, refl, bit_or, ◌||◌, ltb, ◌==◌, if◌then◌else◌, write, arith,
}
use raccoon_exok.Common.Word.{u16, u32, ◌<<◌, ◌>>◌}

pub record IdtEntry : Type 0 where
  pub offset_0_16 : ℕ
  pub code_segment : ℕ
  pub ist : ℕ
  pub attributes : ℕ
  pub offset_16_32 : ℕ
  pub offset_32_63 : ℕ
  pub zeros : ℕ

-- `GDT_KERNEL_CODE` is 1.
unfoldable pub create_idt_entry : (handler ist idt_flags : ℕ) → IdtEntry
create_idt_entry handler ist idt_flags = record {
  attributes = idt_flags;
  ist = ist;
  offset_0_16 = u16 handler;
  offset_16_32 = u16 (handler >> 16);
  offset_32_63 = u32 (handler >> 32);
  code_segment = 1 * 8;
  zeros = 0;
}

-- The address that the processor calls.
abbrev pub handler_of : IdtEntry → ℕ
handler_of e = e.offset_0_16 + (e.offset_16_32 << 16) + (e.offset_32_63 << 32)

abbrev pub idt_present : ℕ
idt_present = 0b10000000

abbrev pub idt_interrupt : ℕ
idt_interrupt = 0b00001110

abbrev pub blank_entry : IdtEntry
blank_entry = record {
  offset_0_16 = 0;
  code_segment = 0;
  ist = 0;
  attributes = 0;
  offset_16_32 = 0;
  offset_32_63 = 0;
  zeros = 0;
}

-- The addresses of the assembly routines `isr0`, `isr1`, … and `irq0`, `irq1`, ….
module _ (isr irq : ℕ → ℕ) where
  unfoldable pub set_isr_entry : ℕ → (ℕ → IdtEntry) → ℕ → IdtEntry
  set_isr_entry n entries =
      write entries n (create_idt_entry (isr n) 0 (bit_or idt_present idt_interrupt))

  unfoldable pub set_irq_entry : ℕ → (ℕ → IdtEntry) → ℕ → IdtEntry
  set_irq_entry n entries =
      write entries (n + 32) (create_idt_entry (irq n) 0 (bit_or idt_present idt_interrupt))

  -- `set_isr_entry(0); …; set_isr_entry(n - 1);`
  unfoldable pub set_first_entries : ℕ → (ℕ → IdtEntry) → ℕ → IdtEntry
  unfolding set_isr_entry
  set_first_entries zero entries = entries
  set_first_entries (suc n) entries = set_isr_entry n (set_first_entries n entries)

  -- The entries as `setup_idt` leaves them, from the table of zeros.
  unfoldable pub setup_idt : ℕ → IdtEntry
  unfolding set_first_entries set_isr_entry set_irq_entry
  setup_idt =
      set_isr_entry 129
        (set_isr_entry 127 (set_irq_entry 0 (set_first_entries 32 (λ n. blank_entry))))

  set_first_entries-at :
      (n : ℕ) (entries : ℕ → IdtEntry) (k : ℕ)
      → set_first_entries n entries k ≡ (
          if ltb k n
          then create_idt_entry (isr k) 0 (bit_or idt_present idt_interrupt)
          else entries k)
  unfolding set_first_entries
  set_first_entries-at zero entries k = ground arith
  set_first_entries-at (suc n) entries k = ground (arith, set_first_entries-at n entries k)

  -- `setup_idt` installs exactly the vectors 0 to 31, 127 and 129 with the routine of the same
  -- number and vector 32 with `irq0`, each entry present, and leaves every other entry zero.
  pub setup_idt-at :
      (k : ℕ)
      → setup_idt k ≡ (
          if ltb k 32 || (k == 127 || k == 129)
          then create_idt_entry (isr k) 0 (idt_present + idt_interrupt)
          else if k == 32
          then create_idt_entry (irq 0) 0 (idt_present + idt_interrupt)
          else blank_entry)
  unfolding setup_idt set_isr_entry set_irq_entry
  setup_idt-at k = ground (arith, set_first_entries-at 32 (λ n. blank_entry) k)

-- The entry that `create_idt_entry` makes of a 64-bit address holds that address, the kernel's code
-- segment 8, and the given attributes and stack.
pub handler_of-create_idt_entry :
    (handler ist idt_flags : ℕ)
    → handler < 2 ^ 64
    → (let e = create_idt_entry handler ist idt_flags in
        (handler_of e ≡ handler)
        × (e.code_segment ≡ 8)
        × (e.attributes ≡ idt_flags)
        × (e.ist ≡ ist))
unfolding create_idt_entry
handler_of-create_idt_entry handler ist idt_flags h = (omega arith, refl, refl, refl)
