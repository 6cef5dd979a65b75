-- ===== src/Acpi/Madt/Loop.antt =====
-- The loop of parse_MADT, arch/x86_64/src/rsdt.c, over the entries of the table.
use raccoon_exok.Common.{
  ℕ, zero, suc, ◌+◌, ◌<◌, ◌^◌, ◌≡◌, refl, ◌∙◌, ap, List, [], ◌∷◌, length, some, arith,
}
use raccoon_exok.Common.Run.{ok, out_of_fuel}
use raccoon_exok.Memory.{Memory, load}
use raccoon_exok.Acpi.{load_le, ApicInfo, record_entry, madt_loop, parse_madt}
use raccoon_exok.Acpi.Madt.{MadtEntry, other, EntryAt, Placed, Recorded, Fits}
use raccoon_exok.Acpi.Madt.Entries.{EntryAt-Records, record_entry-other, Appended-nil}

module _ (mem : Memory) where
  madt_loop-entry :
      (end rounds p n kind : ℕ) (info next : ApicInfo)
      → p < end
      → n < 128
      → p + n < 2 ^ 64
      → mem (p + 1) ≡ some n
      → mem p ≡ some kind
      → record_entry mem p kind info ≡ ok next
      → madt_loop mem end (suc rounds) p info ≡ madt_loop mem end rounds (p + n) next
  unfolding madt_loop load
  madt_loop-entry end rounds p n kind info next h small wraps at_n at_kind records =
      ground (arith, at_n, at_kind, records)

  madt_loop-Recorded :
      (end p : ℕ) (es : List (MadtEntry × ℕ)) (rounds : ℕ) (info : ApicInfo)
      → Placed mem end p es
      → Fits es info
      → length es < rounds
      → (info' : ApicInfo) × (madt_loop mem end rounds p info ≡ ok info') × Recorded es info info'
  unfolding madt_loop
  madt_loop-Recorded end p es zero info placed fits h = absurd (omega arith)
  madt_loop-Recorded end p [] (suc rounds) info placed fits h = (
    info,
    ground arith,
    (
      Appended-nil info.lapics info.numcore,
      Appended-nil info.interrupt info.interrupt_count,
      Appended-nil info.nmis info.nmi_count,
      refl,
    ),
  )
  madt_loop-Recorded end p ((e, n) ∷ es) (suc rounds) info (on, small, wraps, at_n, at, rest) fits
        h =
      let (kind, at_kind, next, records, fits', back) = EntryAt-Records mem p e n es info at fits in
      let (info', runs, recorded) =
        madt_loop-Recorded end (p + n) es rounds next rest fits' (omega arith) in
      (
        info',
        madt_loop-entry end rounds p n kind info next on small wraps at_n at_kind records ∙ runs,
        back info' recorded,
      )

-- On a readable table whose entries, each with a length below 128 in its second byte, stand one
-- behind the other up to its end and below the end of the address space, with room for them in
-- `apic_info`, `parse_MADT` ends with more rounds than entries: it appends the enabled processors,
-- the overrides and the non-maskable interrupts in their order to those already recorded, and the
-- address of the local controllers is the last override's, or the table's without one.
pub parse_madt-Recorded :
    (mem : Memory) (rounds madt table_address size : ℕ) (es : List (MadtEntry × ℕ))
    (info : ApicInfo)
    → load_le mem 4 (madt + 0x24) ≡ ok table_address
    → load_le mem 4 (madt + 4) ≡ ok size
    → Placed mem (madt + size) (madt + 0x2c) es
    → Fits es info
    → length es < rounds
    → (info' : ApicInfo) × (parse_madt mem rounds madt info ≡ ok info')
      × Recorded es (record info { lapic_address = table_address }) info'
unfolding parse_madt
parse_madt-Recorded mem rounds madt table_address size es info at_address at_size placed fits h =
    let (info', runs, recorded) =
      madt_loop-Recorded mem (madt + size) (madt + 0x2c) es rounds
        (record info { lapic_address = table_address }) placed fits h in
    (info', ground (arith, at_address, at_size, runs), recorded)

-- An entry of a kind without a case in the `switch`, whose length is 0, is read again forever: the
-- loop ends for no number of rounds.
pub madt_loop-endless :
    (mem : Memory) (end p kind : ℕ) (info : ApicInfo)
    → p < end
    → p < 2 ^ 64
    → EntryAt mem p (other kind)
    → mem (p + 1) ≡ some 0
    → (rounds : ℕ) → madt_loop mem end rounds p info ≡ out_of_fuel
unfolding madt_loop
madt_loop-endless mem end p kind info h small at length0 zero = refl
madt_loop-endless mem end p kind info h small at length0 (suc rounds) =
    madt_loop-entry mem end rounds p 0 kind info info h (omega arith) (omega arith) length0 at.0
      (record_entry-other mem p kind info at)
    ∙ ap (λ (q : ℕ). madt_loop mem end rounds q info) (omega arith)
    ∙ madt_loop-endless mem end p kind info h small at length0 rounds
