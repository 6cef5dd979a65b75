-- ===== src/Vmm/Paging.antt =====
-- The memory that arch/x86_64/src/vmm.c works on: words at physical addresses, reached through the
-- page tables. `physical_to_stivale` is the boot loader's map of the first 2 GiB of the physical
-- memory, so that the `words` of the frame manager are the physical memory at the addresses it maps.
-- `translate` is the processor's walk over four tables; an
-- entry of the levels 4 to 2 with bit 7 set leads to no table, and no large page is modelled.
use raccoon_exok.Common.{
  ℕ, ◌+◌, ◌*◌, ◌/◌, ◌%◌, ◌^◌, ◌≡◌, Option, none, some, ◌==◌, if◌then◌else◌, write, arith,
}
use raccoon_exok.Common.Run.{Run, ok, fault}
use raccoon_exok.Pmm.{Pmm, physical_to_stivale}
use raccoon_exok.Vmm.Address.{AddressOffset64, split}

-- `limine_page_directory_addr` is the static variable of vmm.c, as `init_vmm` sets it.
pub record Vm : Type 0 where
  pub cr3 : ℕ
  pub limine_page_directory_addr : ℕ
  pub pmm : Pmm

abbrev pub physical : Vm → ℕ → ℕ
physical vm p = vm.pmm.words (physical_to_stivale p)

-- The bits 12 to 51 of an entry or of the register CR3.
abbrev pub frame_base : ℕ → ℕ
frame_base entry = entry / 2 ^ 12 % 2 ^ 40 * 2 ^ 12

abbrev pub present : ℕ → Option ℕ
present entry = if entry % 2 == 0 then none else some (frame_base entry)

-- The same for an entry that is to lead to a table; with bit 7, page size, it does not.
unfoldable pub next_table : ℕ → Option ℕ
next_table entry = if entry / 2 ^ 7 % 2 == 1 then none else present entry

-- An entry that leads to a table would as an entry of level 1 point to it as a page.
pub present-next_table : (e t : ℕ) → next_table e ≡ some t → present e ≡ some t
unfolding next_table
present-next_table e t h = ground arith

-- The table that entry `index` of the table at `table` leads to.
abbrev pub table_at : (ℕ → ℕ) → ℕ → ℕ → Option ℕ
table_at memory table index = next_table (memory (table + index * 8))

-- The page that entry `index` of the table of level 1 at `table` points to; its bit 7 is another one.
abbrev pub page_at : (ℕ → ℕ) → ℕ → ℕ → Option ℕ
page_at memory table index = present (memory (table + index * 8))

abbrev pub and_then : Option ℕ → (ℕ → Option ℕ) → Option ℕ
and_then none f = none
and_then (some x) f = f x

abbrev pub walk : (ℕ → ℕ) → ℕ → AddressOffset64 → Option ℕ
walk memory root o = and_then (table_at memory root o.plm4) λ t3.
    and_then (table_at memory t3 o.plm3) λ t2.
      and_then (table_at memory t2 o.plm2)
        λ t1. and_then (page_at memory t1 o.plm1) λ page. some (page + o.plm0)

unfoldable pub translate : (ℕ → ℕ) → (cr3 address : ℕ) → Option ℕ
translate memory cr3 address = walk memory (frame_base cr3) (split address)

-- `*entry` and `*entry = value` at a virtual address.
unfoldable pub read_entry : Vm → ℕ → Run ℕ
read_entry vm entry = elim (translate (physical vm) vm.cr3 entry) [
  | none ↦ fault
  | some p ↦ ok (physical vm p)
]

unfoldable pub write_entry : Vm → (entry value : ℕ) → Run Vm
write_entry vm entry value = elim (translate (physical vm) vm.cr3 entry) [
  | none ↦ fault
  | some p ↦ ok (record vm {
    pmm = record vm.pmm { words = write vm.pmm.words (physical_to_stivale p) value };
  })
]
