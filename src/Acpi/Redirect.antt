-- ===== src/Acpi/Redirect.antt =====
-- arch/x86_64/src/apic.c: `redirect_interrupts`, on the registers of the I/O APIC.
use raccoon_exok.Common.{
  ℕ, zero, suc, ◌+◌, ◌-◌, ◌*◌, ◌/◌, ◌%◌, ◌^◌, ◌<◌, ◌≤◌, ◌≡◌, refl, ◌∙◌, ap, sym, Bool-cases, inl,
  inr, lt→ltb, bit_and, bit_or, Bool, not, true, false, ◌&&◌, ◌||◌, List, [], ◌∷◌, length, ltb, leb,
  ◌==◌, if◌then◌else◌, write, arith,
}
use raccoon_exok.Common.Run.{Run, ok, fault}
use raccoon_exok.Common.Limits.{max_core}
use raccoon_exok.Common.Word.{u32}
use raccoon_exok.Common.Bits.Fields.{bit_and_mask, bit_or_low}
use raccoon_exok.Acpi.{InterruptSourceOverride, IoapicEntry, ApicInfo}
use raccoon_exok.Acpi.Madt.{HoldsFrom}

-- The register that `ioapic[0]` selects is the one that `ioapic[4]` reads and writes.
unfoldable pub cpu_write_ioapic : (reg value : ℕ) → (ℕ → ℕ) → ℕ → ℕ
cpu_write_ioapic reg value regs = write regs (bit_and reg 0xff) value

-- `irq` is a `char`, which is signed: from 128 on it is a huge `size_t`.
abbrev pub can_redirect : IoapicEntry → InterruptSourceOverride → Bool
can_redirect ioapic o =
    ltb ioapic.base o.global_system_interrupt && (ltb o.irq 128 && leb o.irq ioapic.max_redirection)

-- A `char` as an `uint32_t`.
abbrev pub extended : ℕ → ℕ
extended c = if ltb c 128 then c else c + 2 ^ 32 - 2 ^ 8

-- `IOAPIC_REDIRECTION_OFFSET + (irq - base) * 2`, of 32 bits.
abbrev pub redirection : (base irq : ℕ) → ℕ
redirection base irq = u32 (0x10 + u32 (irq + 2 ^ 32 - base) * 2)

unfoldable pub redirect_one : (id : ℕ) → IoapicEntry → InterruptSourceOverride → (ℕ → ℕ) → ℕ → ℕ
unfolding cpu_write_ioapic
redirect_one id ioapic o regs =
    cpu_write_ioapic (u32 (redirection ioapic.base o.irq + 1)) id
      (cpu_write_ioapic (redirection ioapic.base o.irq) (bit_or (o.irq + 32) (2 ^ 13)) regs)

-- The loop from entry `i` on.
unfoldable pub redirect_loop : ApicInfo → (rounds i : ℕ) → (ℕ → ℕ) → Run (ℕ → ℕ)
redirect_loop info zero i regs = ok regs
redirect_loop info (suc rounds) i regs =
    let o = info.interrupt i in
    let next =
      if can_redirect info.ioapic o
      then redirect_one (extended (info.lapics 0).acpi_id) info.ioapic o regs
      else regs in
    if ltb i max_core then redirect_loop info rounds (i + 1) next else fault

unfoldable pub redirect_interrupts : ApicInfo → (ℕ → ℕ) → Run (ℕ → ℕ)
redirect_interrupts info regs = redirect_loop info info.interrupt_count 0 regs

-- Whether register `r` belongs to the entry of `o`.
abbrev pub is_entry : (base r : ℕ) → InterruptSourceOverride → Bool
is_entry base r o = leb 16 r && ((r - 16) / 2 + base == o.irq)

-- Whether one of the overrides is redirected by register `r`.
abbrev pub asked : IoapicEntry → ℕ → List InterruptSourceOverride → Bool
asked ioapic r [] = false
asked ioapic r (o ∷ os) = (can_redirect ioapic o && is_entry ioapic.base r o) || asked ioapic r os

-- What is redirected has a register of 8 bits.
abbrev pub in_range : IoapicEntry → List InterruptSourceOverride → Bool
in_range ioapic [] = true
in_range ioapic (o ∷ os) =
    (not (can_redirect ioapic o) || (leb ioapic.base o.irq && ltb o.irq (ioapic.base + 120)))
    && in_range ioapic os

-- The two halves of an entry: the vector, active at a low level, and the identifier of the core.
abbrev pub half : (id base r : ℕ) → ℕ
half id base r = if r % 2 == 0 then (r - 16) / 2 + base + 32 + 2 ^ 13 else id

redirect_one-at :
    (id r : ℕ) (ioapic : IoapicEntry) (o : InterruptSourceOverride) (regs : ℕ → ℕ)
    → ioapic.base ≤ o.irq
    → o.irq < ioapic.base + 120
    → o.irq < 128
    → redirect_one id ioapic o regs r
      ≡ (if is_entry ioapic.base r o then half id ioapic.base r else regs r)
unfolding redirect_one cpu_write_ioapic
redirect_one-at id r ioapic o regs h g small =
    let reg = redirection ioapic.base o.irq in
    ground (
      arith,
      bit_or_low 13 1 (o.irq + 32) (omega arith),
      bit_and_mask 8 reg,
      bit_and_mask 8 (u32 (reg + 1)),
    )

redirect_loop-nil : (info : ApicInfo) (i : ℕ) (regs : ℕ → ℕ) → redirect_loop info 0 i regs ≡ ok regs
unfolding redirect_loop
redirect_loop-nil info i regs = refl

-- The registers behind a round of the loop.
abbrev redirected : (id : ℕ) → IoapicEntry → InterruptSourceOverride → (ℕ → ℕ) → ℕ → ℕ
redirected id ioapic o regs = if can_redirect ioapic o then redirect_one id ioapic o regs else regs

redirected-at :
    (id r : ℕ) (ioapic : IoapicEntry) (o : InterruptSourceOverride)
    (os : List InterruptSourceOverride) (regs : ℕ → ℕ)
    → in_range ioapic (o ∷ os) ≡ true
    → redirected id ioapic o regs r ≡ (
        if can_redirect ioapic o && is_entry ioapic.base r o then half id ioapic.base r else regs r)
redirected-at id r ioapic o os regs range = elim (Bool-cases (can_redirect ioapic o)) [
  | inl can ↦
      ap (λ b. (if b then redirect_one id ioapic o regs else regs) r) can
      ∙ redirect_one-at id r ioapic o regs (ground (arith, can)) (ground (arith, can))
          (ground (arith, can))
      ∙ ap (λ b. if b && is_entry ioapic.base r o then half id ioapic.base r else regs r) (sym can)
  | inr cannot ↦
      ap (λ b. (if b then redirect_one id ioapic o regs else regs) r) cannot
      ∙ ap (λ b. if b && is_entry ioapic.base r o then half id ioapic.base r else regs r)
          (sym cannot)
]

redirect_loop-cons :
    (info : ApicInfo) (i rounds : ℕ) (regs : ℕ → ℕ)
    → i < max_core
    → redirect_loop info (suc rounds) i regs
      ≡ redirect_loop info rounds
          (i + 1)
          (redirected (extended (info.lapics 0).acpi_id) info.ioapic (info.interrupt i) regs)
unfolding redirect_loop
redirect_loop-cons info i rounds regs h =
    ap
      (λ b.
        if b
        then redirect_loop info rounds (i + 1)
            (redirected (extended (info.lapics 0).acpi_id) info.ioapic (info.interrupt i) regs)
        else fault)
      (lt→ltb i max_core h)

redirect_loop-at :
    (info : ApicInfo) (os : List InterruptSourceOverride) (i : ℕ) (regs : ℕ → ℕ)
    → HoldsFrom info.interrupt i os
    → i + length os ≤ max_core
    → in_range info.ioapic os ≡ true
    → (regs' : ℕ → ℕ) × (redirect_loop info (length os) i regs ≡ ok regs')
      × ((r : ℕ)
          → regs' r ≡ (
              if asked info.ioapic r os
              then half (extended (info.lapics 0).acpi_id) info.ioapic.base r
              else regs r))
redirect_loop-at info [] i regs holds room range = (regs, redirect_loop-nil info i regs, λ r. refl)
redirect_loop-at info (o ∷ os) i regs (here, holds) room range =
    let id = extended (info.lapics 0).acpi_id in
    let (regs', runs, at) =
      redirect_loop-at info os (i + 1) (redirected id info.ioapic o regs) holds (omega arith)
        (ground (arith, range)) in
    (
      regs',
      redirect_loop-cons info i (length os) regs (omega arith)
          ∙ ap
              (λ (o : InterruptSourceOverride).
                redirect_loop info (length os) (i + 1) (redirected id info.ioapic o regs))
              here
          ∙ runs,
      λ r. ground (arith, at r, redirected-at id r info.ioapic o os regs range),
    )

-- When `interrupt` holds the overrides `os`, and those that can be redirected have a register of 8
-- bits, `redirect_interrupts` ends, gives the two halves of the entry of each such override the
-- vector `irq + 32`, active at a low level, and the identifier of the first core, and leaves every
-- other register.
pub redirect_interrupts-redirected :
    (info : ApicInfo) (os : List InterruptSourceOverride) (regs : ℕ → ℕ)
    → info.interrupt_count ≡ length os
    → HoldsFrom info.interrupt 0 os
    → length os ≤ max_core
    → in_range info.ioapic os ≡ true
    → (regs' : ℕ → ℕ) × (redirect_interrupts info regs ≡ ok regs')
      × ((r : ℕ)
          → regs' r ≡ (
              if asked info.ioapic r os
              then half (extended (info.lapics 0).acpi_id) info.ioapic.base r
              else regs r))
unfolding redirect_interrupts
redirect_interrupts-redirected info os regs count holds room range =
    let (regs', runs, at) = redirect_loop-at info os 0 regs holds (omega arith) range in
    (regs', ap (λ (n : ℕ). redirect_loop info n 0 regs) count ∙ runs, at)
