-- ===== src/Acpi/Tests.antt =====
-- A table with one enabled processor, a table of eight bytes, an entry of length 0, and one override.
use raccoon_exok.Common.{ℕ, ◌+◌, ◌≡◌, refl, [], ◌∷◌, ◌==◌, if◌then◌else◌, some, true, false, arith}
use raccoon_exok.Common.Run.{ok, out_of_fuel}
use raccoon_exok.Memory.{Memory}
use raccoon_exok.Acpi.{
  load_le, sum_loop, InterruptSourceOverride, ApicInfo, parse_madt, checksum, madt_loop,
}
use raccoon_exok.Acpi.Checksum.{checksum-detects}
use raccoon_exok.Acpi.Redirect.{redirect_interrupts, asked, half, redirect_interrupts-redirected}
use raccoon_exok.Acpi.Madt.{lapic, Recorded}
use raccoon_exok.Acpi.Madt.Loop.{parse_madt-Recorded, madt_loop-endless}

abbrev table : Memory
table i = some (
    if i == 4
    then 52
    else if i == 39
    then 254
    else if i == 45
    then 8
    else if i == 47
    then 7
    else if i == 48
    then 1
    else 0)

abbrev nothing : ApicInfo
nothing = record {
  numcore = 0;
  lapics = λ _. record { acpi_processor_id = 0; acpi_id = 0; flags = 0 };
  lapic_address = 0;
  ioapic = record { id = 0; address = 0; base = 0; max_redirection = 0 };
  interrupt = λ _. record { bus = 0; irq = 0; global_system_interrupt = 0; flags = 0 };
  interrupt_count = 0;
  nmi_count = 0;
  nmis = λ _. record { acpi_processor_id = 0; flags = 0; lint = 0 };
}

table-address : load_le table 4 (0 + 0x24) ≡ ok 0xfe000000
unfolding load_le
table-address = refl

table-size : load_le table 4 (0 + 4) ≡ ok 52
unfolding load_le
table-size = refl

table-flags : load_le table 3 (0 + 0x2c + 4 + 1) ≡ ok 0
unfolding load_le
table-flags = refl

parse_madt-Recorded_example :
    (info' : ApicInfo) × (parse_madt table 2 0 nothing ≡ ok info')
    × Recorded ((lapic 0 7 1 0, 8) ∷ []) (record nothing { lapic_address = 0xfe000000 }) info'
parse_madt-Recorded_example =
    parse_madt-Recorded table 2 0 0xfe000000 52 ((lapic 0 7 1 0, 8) ∷ []) nothing table-address
      table-size
      (
        omega arith,
        omega arith,
        omega arith,
        refl,
        (refl, refl, refl, refl, table-flags),
        omega arith,
      )
      (omega arith, omega arith, omega arith) (omega arith)

abbrev eight : ℕ → Memory
eight b i = some (if i == 0 then b else if i == 4 then 8 else 0)

eight-size : (b : ℕ) → load_le (eight b) 4 (0 + 4) ≡ ok 8
unfolding load_le
eight-size b = refl

valid : checksum (eight 248) 0 ≡ ok true
unfolding checksum load_le sum_loop
valid = refl

checksum-detects_example : checksum (eight 247) 0 ≡ ok false
checksum-detects_example =
    checksum-detects (eight 248) (eight 247) 0 248 247 [] (0 ∷ 0 ∷ 0 ∷ 8 ∷ 0 ∷ 0 ∷ 0 ∷ [])
      (refl, (refl, (refl, (refl, (refl, (refl, (refl, (refl, tt))))))))
      (refl, (refl, (refl, (refl, (refl, (refl, (refl, (refl, tt)))))))) (omega arith) (omega arith)
      (omega arith) (eight-size 248) (eight-size 247) valid

abbrev stuck : Memory
stuck i = some (if i == 0 then 9 else 0)

madt_loop-endless_example : madt_loop stuck 8 1000 0 nothing ≡ out_of_fuel
madt_loop-endless_example =
    madt_loop-endless stuck 8 0 9 nothing (omega arith) (omega arith)
      (refl, omega arith, omega arith, omega arith, omega arith, omega arith) refl 1000

-- The override of interrupt 9, and the core with the identifier 7.
abbrev level_irq : InterruptSourceOverride
level_irq = record { bus = 0; irq = 9; global_system_interrupt = 9; flags = 13 }

abbrev with_override : ApicInfo
with_override = record nothing {
  lapics = λ _. record { acpi_processor_id = 0; acpi_id = 7; flags = 1 };
  ioapic = record { id = 0; address = 0; base = 0; max_redirection = 23 };
  interrupt = λ _. level_irq;
  interrupt_count = 1;
}

redirect_interrupts-redirected_example :
    (regs' : ℕ → ℕ) × (redirect_interrupts with_override (λ _. 0) ≡ ok regs')
    × ((r : ℕ)
        → regs' r ≡ (if asked with_override.ioapic r (level_irq ∷ []) then half 7 0 r else 0))
redirect_interrupts-redirected_example =
    redirect_interrupts-redirected with_override (level_irq ∷ []) (λ _. 0) refl (refl, tt)
      (omega arith) refl
