-- ===== src/Acpi.antt =====
-- arch/x86_64/src/rsdt.c and arch/x86_64/include/UEFI/RSDT.h: the table of the interrupt controllers,
-- in the byte memory.
pub mod Checksum
pub mod Madt
pub mod Redirect
mod Tests
use raccoon_exok.Common.{
  ℕ, zero, suc, ◌+◌, ◌*◌, ◌-◌, ◌^◌, ◌%◌, Bool, bit_and, not, ltb, ◌==◌, if◌then◌else◌, write,
}
use raccoon_exok.Common.Limits.{max_core}
use raccoon_exok.Common.Run.{Run, ok, fault, out_of_fuel, ◌>>=◌}
use raccoon_exok.Common.Word.{u8, add64, sub64}
use raccoon_exok.Memory.{Memory, load}

-- The `n` bytes from `p` on as a number, the lowest first.
unfoldable pub load_le : Memory → (n p : ℕ) → Run ℕ
unfolding load
load_le mem zero p = ok 0
load_le mem (suc n) p = do b ← load mem p; rest ← load_le mem n (p + 1); ok (b + 256 * rest)

-- `madt_lapic_entry_t`.
pub record LapicEntry : Type 0 where
  pub acpi_processor_id : ℕ
  pub acpi_id : ℕ
  pub flags : ℕ

-- `ioapic_entry_t`.
pub record IoapicEntry : Type 0 where
  pub id : ℕ
  pub address : ℕ
  pub base : ℕ
  pub max_redirection : ℕ

pub record InterruptSourceOverride : Type 0 where
  pub bus : ℕ
  pub irq : ℕ
  pub global_system_interrupt : ℕ
  pub flags : ℕ

pub record LapicNmi : Type 0 where
  pub acpi_processor_id : ℕ
  pub flags : ℕ
  pub lint : ℕ

-- `apic_info_t`: `lapics` and `interrupt` have 32 entries, `nmis` has 10.
pub record ApicInfo : Type 0 where
  pub numcore : ℕ
  pub lapics : ℕ → LapicEntry
  pub lapic_address : ℕ
  pub ioapic : IoapicEntry
  pub interrupt : ℕ → InterruptSourceOverride
  pub interrupt_count : ℕ
  pub nmi_count : ℕ
  pub nmis : ℕ → LapicNmi

-- `for (i = 0; i < Length; i++) sum += ((char*)header)[i];` with `n` bytes to go.
unfoldable pub sum_loop : Memory → (n p sum : ℕ) → Run ℕ
unfolding load
sum_loop mem zero p sum = ok sum
sum_loop mem (suc n) p sum = load mem p >>= λ b. sum_loop mem n (p + 1) (u8 (sum + b))

-- `header->Length` stands at offset 4 of the header.
unfoldable pub checksum : Memory → (header : ℕ) → Run Bool
unfolding load_le sum_loop
checksum mem header = do
  n ← load_le mem 4 (header + 4)
  sum ← sum_loop mem n header 0
  ok (sum == 0)

-- The `switch` over the type of the entry at `ptr`, with the stores into the arrays unchecked.
unfoldable pub record_lapic : Memory → (ptr : ℕ) → ApicInfo → Run ApicInfo
unfolding load load_le
record_lapic mem ptr info = do
  enabled ← load mem (ptr + 4)
  let stored = load mem (ptr + 2) >>= λ processor. load mem (ptr + 3) >>= λ id.
      load_le mem 4 (ptr + 4) >>= λ flags.
      if ltb info.numcore max_core
      then ok (record info {
        numcore = info.numcore + 1;
        lapics =
            write info.lapics info.numcore
              (record { acpi_processor_id = processor; acpi_id = id; flags = flags });
      })
      else fault
  if bit_and enabled 1 == 0 then ok info else stored

unfoldable pub record_ioapic : Memory → (ptr : ℕ) → ApicInfo → Run ApicInfo
unfolding load load_le
record_ioapic mem ptr info = do
  id ← load mem (ptr + 1)
  address ← load_le mem 4 (ptr + 4)
  base ← load_le mem 4 (ptr + 8)
  ok (record info {
    ioapic = record { id = id; address = address; base = base; max_redirection = 0 };
  })

unfoldable pub record_override : Memory → (ptr : ℕ) → ApicInfo → Run ApicInfo
unfolding load load_le
record_override mem ptr info = do
  bus ← load mem (ptr + 2)
  irq ← load mem (ptr + 3)
  gsi ← load_le mem 4 (ptr + 4)
  flags ← load_le mem 2 (ptr + 8)
  if ltb info.interrupt_count max_core
      then ok (record info {
        interrupt_count = info.interrupt_count + 1;
        interrupt =
            write info.interrupt info.interrupt_count
              (record { bus = bus; irq = irq; global_system_interrupt = gsi; flags = flags });
      })
      else fault

unfoldable pub record_nmi : Memory → (ptr : ℕ) → ApicInfo → Run ApicInfo
unfolding load load_le
record_nmi mem ptr info = do
  processor ← load mem (ptr + 2)
  flags ← load_le mem 2 (ptr + 3)
  lint ← load mem (ptr + 5)
  if ltb info.nmi_count 10
      then ok (record info {
        nmi_count = info.nmi_count + 1;
        nmis =
            write info.nmis info.nmi_count
              (record { acpi_processor_id = processor; flags = flags; lint = lint });
      })
      else fault

unfoldable pub record_entry : Memory → (ptr kind : ℕ) → ApicInfo → Run ApicInfo
record_entry mem ptr kind info =
    if kind == 0
    then record_lapic mem ptr info
    else if kind == 1
    then record_ioapic mem ptr info
    else if kind == 2
    then record_override mem ptr info
    else if kind == 5
    then (load_le mem 8 (ptr + 4) >>= λ address. ok (record info { lapic_address = address }))
    else if kind == 4
    then record_nmi mem ptr info
    else ok info

-- `ptr += ptr[1]`, a `char`, which is signed: 128 to 255 step back.
abbrev pub step : (ptr length : ℕ) → ℕ
step ptr length = if ltb length 128 then add64 ptr length else sub64 ptr (256 - length)

-- The loop from `ptr` to `end`.
unfoldable pub madt_loop : Memory → (end rounds ptr : ℕ) → ApicInfo → Run ApicInfo
unfolding load
madt_loop mem end zero ptr info = out_of_fuel
madt_loop mem end (suc rounds) ptr info = if not (ltb ptr end) then ok info else do
  kind ← load mem ptr
  info ← record_entry mem ptr kind info
  length ← load mem (ptr + 1)
  madt_loop mem end rounds (step ptr length) info

-- `MADT_ENTRY_START` is 0x2c; `Length` stands at offset 4, `lapic_addr` at 0x24.
unfoldable pub parse_madt : Memory → (rounds madt : ℕ) → ApicInfo → Run ApicInfo
unfolding load_le madt_loop
parse_madt mem rounds madt info = do
  address ← load_le mem 4 (madt + 0x24)
  length ← load_le mem 4 (madt + 4)
  madt_loop mem (madt + length) rounds (madt + 0x2c) (record info { lapic_address = address })
