-- ===== src/Acpi/Madt/Entries.antt =====
-- What the cases of the `switch` in parse_MADT, arch/x86_64/src/rsdt.c, record.
use raccoon_exok.Common.{
  ℕ, suc, ◌+◌, ◌*◌, ◌≤◌, ◌<◌, ◌%◌, ◌≡◌, refl, ◌∙◌, ap, sym, subst, List, [], ◌∷◌, length, ◌==◌,
  if◌then◌else◌, write, some, arith, Bool-cases, inl, inr, true, false, Bool,
}
use raccoon_exok.Common.Limits.{max_core}
use raccoon_exok.Common.Run.{ok}
use raccoon_exok.Common.Bits.Fields.{bit_and_mask}
use raccoon_exok.Memory.{Memory, load}
use raccoon_exok.Acpi.{
  load_le, LapicEntry, InterruptSourceOverride, LapicNmi, ApicInfo, record_lapic, record_ioapic,
  record_override, record_nmi, record_entry,
}
use raccoon_exok.Acpi.Madt.{
  MadtEntry, lapic, ioapic, override, nmi, relocated, other, EntryAt, cores, overrides, nmis,
  Appended, Recorded, Fits,
}

pub Appended-nil {ℓ} : {A : Type ℓ} (f : ℕ → A) (n : ℕ) → Appended f f n n []
Appended-nil f n = (omega arith, λ j h. refl, tt)

Appended-cons {ℓ} :
    {A : Type ℓ} (f g : ℕ → A) (n n' : ℕ) (x : A) (xs : List A)
    → Appended (write f n x) g (n + 1) n' xs
    → Appended f g n n' (x ∷ xs)
Appended-cons f g n n' x xs (count, kept, holds) = (
  omega arith,
  λ j h. kept j (omega arith) ∙ ground arith,
  (kept n (omega arith) ∙ ground arith, holds),
)

module _ (mem : Memory) where
  -- The entry `e` at `p` is recorded, before the entries `es`.
  abbrev pub Records : ℕ → MadtEntry → ℕ → List (MadtEntry × ℕ) → ApicInfo → Type 0
  Records p e n es info =
      (kind : ℕ) × (mem p ≡ some kind)
      × (next : ApicInfo) × (record_entry mem p kind info ≡ ok next)
      × Fits es next
      × ((info' : ApicInfo) → Recorded es next info' → Recorded ((e, n) ∷ es) info info')

  record_lapic-enabled :
      (p processor id low high : ℕ) (info : ApicInfo)
      → EntryAt mem p (lapic processor id low high)
      → (low % 2 == 0) ≡ false
      → info.numcore < max_core
      → record_lapic mem p info
        ≡ ok (record info {
          numcore = info.numcore + 1;
          lapics =
              write info.lapics info.numcore
                (record { acpi_processor_id = processor; acpi_id = id; flags = low + 256 * high });
        })
  unfolding record_lapic load load_le
  record_lapic-enabled p processor id low high info (kind, h2, h3, h4, h5) on room =
      ground (arith, bit_and_mask 1 low, h2, h3, h4, h5)

  record_lapic-disabled :
      (p processor id low high : ℕ) (info : ApicInfo)
      → EntryAt mem p (lapic processor id low high)
      → (low % 2 == 0) ≡ true
      → record_lapic mem p info ≡ ok info
  unfolding record_lapic load
  record_lapic-disabled p processor id low high info (kind, h2, h3, h4, h5) off =
      ground (arith, bit_and_mask 1 low, h4)

  abbrev processor_entry : (processor id low high : ℕ) → LapicEntry
  processor_entry processor id low high = record {
    acpi_processor_id = processor;
    acpi_id = id;
    flags = low + 256 * high;
  }

  cores-if :
      (processor id low high n : ℕ) (es : List (MadtEntry × ℕ)) (b : Bool)
      → (low % 2 == 0) ≡ b
      → cores ((lapic processor id low high, n) ∷ es)
        ≡ (if b then cores es else processor_entry processor id low high ∷ cores es)
  cores-if processor id low high n es b h =
      ap (λ b. if b then cores es else processor_entry processor id low high ∷ cores es) h

  lapic-Records :
      (p processor id low high n : ℕ) (es : List (MadtEntry × ℕ)) (info : ApicInfo)
      → EntryAt mem p (lapic processor id low high)
      → Fits ((lapic processor id low high, n) ∷ es) info
      → Records p (lapic processor id low high) n es info
  unfolding record_entry
  lapic-Records p processor id low high n es info (kind, h2, h3, h4, h5) (fc, fi, fn) =
      elim (Bool-cases (low % 2 == 0)) [
        | inl off ↦
            let same = cores-if processor id low high n es true off in
            (
              0,
              kind,
              info,
              record_lapic-disabled p processor id low high info (kind, h2, h3, h4, h5) off,
              (subst (λ l. info.numcore + length l ≤ max_core) same fc, fi, fn),
              λ info' (c, i, m, a). (
                subst (Appended info.lapics info'.lapics info.numcore info'.numcore) (sym same) c,
                i,
                m,
                a,
              ),
            )
        | inr on ↦
            let same = cores-if processor id low high n es false on in
            let room : info.numcore + suc (length (cores es)) ≤ max_core =
              subst (λ l. info.numcore + length l ≤ max_core) same fc in
            (
              0,
              kind,
              record info {
                numcore = info.numcore + 1;
                lapics = write info.lapics info.numcore (processor_entry processor id low high);
              },
              record_lapic-enabled p processor id low high info (kind, h2, h3, h4, h5) on
                  (omega arith),
              (omega arith, fi, fn),
              λ info' (c, i, m, a). (
                subst (Appended info.lapics info'.lapics info.numcore info'.numcore) (sym same) (
                    Appended-cons info.lapics info'.lapics info.numcore info'.numcore
                      (processor_entry processor id low high) (cores es) c),
                i,
                m,
                a,
              ),
            )
      ]

  record_override-entry :
      (p bus irq gsi flags : ℕ) (info : ApicInfo)
      → EntryAt mem p (override bus irq gsi flags)
      → info.interrupt_count < max_core
      → record_override mem p info
        ≡ ok (record info {
          interrupt_count = info.interrupt_count + 1;
          interrupt =
              write info.interrupt info.interrupt_count
                (record { bus = bus; irq = irq; global_system_interrupt = gsi; flags = flags });
        })
  unfolding record_override load
  record_override-entry p bus irq gsi flags info (kind, h2, h3, h4, h8) room =
      ground (arith, h2, h3, h4, h8)

  record_nmi-entry :
      (p processor flags lint : ℕ) (info : ApicInfo)
      → EntryAt mem p (nmi processor flags lint)
      → info.nmi_count < 10
      → record_nmi mem p info
        ≡ ok (record info {
          nmi_count = info.nmi_count + 1;
          nmis =
              write info.nmis info.nmi_count
                (record { acpi_processor_id = processor; flags = flags; lint = lint });
        })
  unfolding record_nmi load
  record_nmi-entry p processor flags lint info (kind, h2, h3, h5) room = ground (arith, h2, h3, h5)

  pub EntryAt-Records :
      (p : ℕ) (e : MadtEntry) (n : ℕ) (es : List (MadtEntry × ℕ)) (info : ApicInfo)
      → EntryAt mem p e
      → Fits ((e, n) ∷ es) info
      → Records p e n es info
  unfolding record_entry record_ioapic load
  EntryAt-Records p (lapic processor id low high) n es info at fits =
      lapic-Records p processor id low high n es info at fits
  EntryAt-Records p (ioapic id address base) n es info (kind, h1, h4, h8) fits = (
    1,
    kind,
    record info {
      ioapic = record { id = id; address = address; base = base; max_redirection = 0 };
    },
    ground (arith, h1, h4, h8),
    fits,
    λ info' r. r,
  )
  EntryAt-Records p (override bus irq gsi flags) n es info (kind, h2, h3, h4, h8) (fc, fi, fn) =
      let added : InterruptSourceOverride = record {
        bus = bus;
        irq = irq;
        global_system_interrupt = gsi;
        flags = flags;
      } in
      (
        2,
        kind,
        record info {
          interrupt_count = info.interrupt_count + 1;
          interrupt = write info.interrupt info.interrupt_count added;
        },
        record_override-entry p bus irq gsi flags info (kind, h2, h3, h4, h8) (omega arith),
        (fc, omega arith, fn),
        λ info' (c, i, m, a). (
          c,
          Appended-cons info.interrupt info'.interrupt info.interrupt_count info'.interrupt_count
              added (overrides es) i,
          m,
          a,
        ),
      )
  EntryAt-Records p (nmi processor flags lint) n es info (kind, h2, h3, h5) (fc, fi, fn) =
      let added : LapicNmi = record { acpi_processor_id = processor; flags = flags; lint = lint } in
      (
        4,
        kind,
        record info { nmi_count = info.nmi_count + 1; nmis = write info.nmis info.nmi_count added },
        record_nmi-entry p processor flags lint info (kind, h2, h3, h5) (omega arith),
        (fc, fi, omega arith),
        λ info' (c, i, m, a). (
          c,
          i,
          Appended-cons info.nmis info'.nmis info.nmi_count info'.nmi_count added (nmis es) m,
          a,
        ),
      )
  EntryAt-Records p (relocated lapic_address) n es info (kind, h4) fits = (
    5,
    kind,
    record info { lapic_address = lapic_address },
    ground (arith, h4),
    fits,
    λ info' r. r,
  )
  EntryAt-Records p (other kind) n es info (at, h0, h1, h2, h4, h5) fits =
      (kind, at, info, ground arith, fits, λ info' r. r)

  pub record_entry-other :
      (p kind : ℕ) (info : ApicInfo)
      → EntryAt mem p (other kind)
      → record_entry mem p kind info ≡ ok info
  unfolding record_entry
  record_entry-other p kind info (at, h0, h1, h2, h4, h5) = ground arith
