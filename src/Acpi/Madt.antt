-- ===== src/Acpi/Madt.antt =====
-- The entries of the table that parse_MADT of arch/x86_64/src/rsdt.c reads, and what it records.
pub mod Entries
pub mod Loop
use raccoon_exok.Common.{
  ℕ, zero, suc, ◌+◌, ◌*◌, ◌≤◌, ◌<◌, ◌^◌, ◌%◌, ◌≡◌, ◌≢◌, List, [], ◌∷◌, length, ◌==◌, if◌then◌else◌,
  some,
}
use raccoon_exok.Common.Limits.{max_core}
use raccoon_exok.Common.Run.{ok}
use raccoon_exok.Memory.{Memory}
use raccoon_exok.Acpi.{load_le, LapicEntry, InterruptSourceOverride, LapicNmi, ApicInfo}

-- An entry of the table; the flags of a `lapic` are given by their lowest byte and the others.
pub data MadtEntry : Type 0 where
  lapic : (processor id low high : ℕ) → MadtEntry
  ioapic : (id address base : ℕ) → MadtEntry
  override : (bus irq global_system_interrupt flags : ℕ) → MadtEntry
  nmi : (processor flags lint : ℕ) → MadtEntry
  relocated : (lapic_address : ℕ) → MadtEntry
  other : (kind : ℕ) → MadtEntry

-- The entry stands at `p`.
abbrev pub EntryAt : Memory → ℕ → MadtEntry → Type 0
EntryAt mem p (lapic processor id low high) =
    (mem p ≡ some 0)
    × (mem (p + 2) ≡ some processor)
    × (mem (p + 3) ≡ some id)
    × (mem (p + 4) ≡ some low)
    × (load_le mem 3 (p + 4 + 1) ≡ ok high)
EntryAt mem p (ioapic id address base) =
    (mem p ≡ some 1)
    × (mem (p + 1) ≡ some id)
    × (load_le mem 4 (p + 4) ≡ ok address)
    × (load_le mem 4 (p + 8) ≡ ok base)
EntryAt mem p (override bus irq gsi flags) =
    (mem p ≡ some 2)
    × (mem (p + 2) ≡ some bus)
    × (mem (p + 3) ≡ some irq)
    × (load_le mem 4 (p + 4) ≡ ok gsi)
    × (load_le mem 2 (p + 8) ≡ ok flags)
EntryAt mem p (nmi processor flags lint) =
    (mem p ≡ some 4)
    × (mem (p + 2) ≡ some processor)
    × (load_le mem 2 (p + 3) ≡ ok flags)
    × (mem (p + 5) ≡ some lint)
EntryAt mem p (relocated lapic_address) =
    (mem p ≡ some 5) × (load_le mem 8 (p + 4) ≡ ok lapic_address)
EntryAt mem p (other kind) =
    (mem p ≡ some kind) × (kind ≢ 0) × (kind ≢ 1) × (kind ≢ 2) × (kind ≢ 4) × (kind ≢ 5)

-- The entries stand one behind the other from `p` to `end`, each with its length in its second byte.
abbrev pub Placed : Memory → (end p : ℕ) → List (MadtEntry × ℕ) → Type 0
Placed mem end p [] = end ≤ p
Placed mem end p ((e, n) ∷ es) =
    (p < end)
    × (n < 128)
    × (p + n < 2 ^ 64)
    × (mem (p + 1) ≡ some n)
    × EntryAt mem p e
    × Placed mem end (p + n) es

-- The enabled processors, the overrides, and the non-maskable interrupts, in their order.
abbrev pub cores : List (MadtEntry × ℕ) → List LapicEntry
cores [] = []
cores ((lapic processor id low high, n) ∷ es) =
    if low % 2 == 0
    then cores es
    else record { acpi_processor_id = processor; acpi_id = id; flags = low + 256 * high } ∷ cores es
cores ((ioapic id address base, n) ∷ es) = cores es
cores ((override bus irq gsi flags, n) ∷ es) = cores es
cores ((nmi processor flags lint, n) ∷ es) = cores es
cores ((relocated lapic_address, n) ∷ es) = cores es
cores ((other kind, n) ∷ es) = cores es

abbrev pub overrides : List (MadtEntry × ℕ) → List InterruptSourceOverride
overrides [] = []
overrides ((lapic processor id low high, n) ∷ es) = overrides es
overrides ((ioapic id address base, n) ∷ es) = overrides es
overrides ((override bus irq gsi flags, n) ∷ es) =
    record { bus = bus; irq = irq; global_system_interrupt = gsi; flags = flags } ∷ overrides es
overrides ((nmi processor flags lint, n) ∷ es) = overrides es
overrides ((relocated lapic_address, n) ∷ es) = overrides es
overrides ((other kind, n) ∷ es) = overrides es

abbrev pub nmis : List (MadtEntry × ℕ) → List LapicNmi
nmis [] = []
nmis ((lapic processor id low high, n) ∷ es) = nmis es
nmis ((ioapic id address base, n) ∷ es) = nmis es
nmis ((override bus irq gsi flags, n) ∷ es) = nmis es
nmis ((nmi processor flags lint, n) ∷ es) =
    record { acpi_processor_id = processor; flags = flags; lint = lint } ∷ nmis es
nmis ((relocated lapic_address, n) ∷ es) = nmis es
nmis ((other kind, n) ∷ es) = nmis es

-- The last address given, or `a`.
abbrev pub address_from : ℕ → List (MadtEntry × ℕ) → ℕ
address_from a [] = a
address_from a ((lapic processor id low high, n) ∷ es) = address_from a es
address_from a ((ioapic id address base, n) ∷ es) = address_from a es
address_from a ((override bus irq gsi flags, n) ∷ es) = address_from a es
address_from a ((nmi processor flags lint, n) ∷ es) = address_from a es
address_from a ((relocated lapic_address, n) ∷ es) = address_from lapic_address es
address_from a ((other kind, n) ∷ es) = address_from a es

-- From entry `n` on the array `f` holds `xs`.
abbrev pub HoldsFrom {ℓ} : {A : Type ℓ} → (ℕ → A) → ℕ → List A → Type ℓ
HoldsFrom f n [] = Unit
HoldsFrom f n (x ∷ xs) = (f n ≡ x) × HoldsFrom f (n + 1) xs

-- `xs` was appended to the first `n` entries of `f`, which gave the first `n'` entries of `g`.
abbrev pub Appended {ℓ} : {A : Type ℓ} → (f g : ℕ → A) (n n' : ℕ) → List A → Type ℓ
Appended f g n n' xs = (n' ≡ n + length xs) × ((j : ℕ) → j < n → g j ≡ f j) × HoldsFrom g n xs

-- What the entries add to `info`.
abbrev pub Recorded : List (MadtEntry × ℕ) → (info info' : ApicInfo) → Type 0
Recorded es info info' =
    Appended info.lapics info'.lapics info.numcore info'.numcore (cores es)
    × Appended info.interrupt info'.interrupt info.interrupt_count info'.interrupt_count
        (overrides es)
    × Appended info.nmis info'.nmis info.nmi_count info'.nmi_count (nmis es)
    × (info'.lapic_address ≡ address_from info.lapic_address es)

-- The arrays of `apic_info` have room for them.
abbrev pub Fits : List (MadtEntry × ℕ) → ApicInfo → Type 0
Fits es info =
    (info.numcore + length (cores es) ≤ max_core)
    × (info.interrupt_count + length (overrides es) ≤ max_core)
    × (info.nmi_count + length (nmis es) ≤ 10)
