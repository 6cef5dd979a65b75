-- ===== src/Vmm/Map.antt =====
-- The mapping functions of arch/x86_64/src/vmm.c on one core: `kmmap`, `kmmap_physical`, and
-- `map_physical`. The loops over the four tables are the same in the first two; they run over plain
-- 64-bit offsets and are modelled with the rounds that are left in a table.
pub mod Page
pub mod Write
use raccoon_exok.Common.{ℕ, zero, suc, ◌+◌, ◌-◌, ◌*◌, bit_or, leb, ltb, ◌==◌, if◌then◌else◌}
use raccoon_exok.Common.Run.{Run, ok, halted, out_of_fuel, ◌>>=◌}
use raccoon_exok.Common.Word.{add64, sub64}
use raccoon_exok.Pmm.{get_frame}
use raccoon_exok.Vmm.Address.{AddressOffset64, offsets, craft_addr}
use raccoon_exok.Vmm.Paging.{Vm, read_entry, write_entry}
use raccoon_exok.Vmm.Window.{entry_l4, entry_l3, entry_l2, entry_l1}
use raccoon_exok.Vmm.Search.{arch_n_entry, arch_page_size, search_empty_space, get_size}

-- `if (*entry == 0) *entry = get_frame() | flags | 1;`
unfoldable pub fill_entry : (flags entry : ℕ) → Vm → Run Vm
fill_entry flags entry vm = do
  e ← read_entry vm entry
  if e == 0
      then (get_frame vm.pmm >>= λ (frame, pmm).
          write_entry (record vm { pmm = pmm }) entry (bit_or (bit_or frame flags) 1))
      else ok vm

-- The local variables of the loops. `physical_addr` is one of `kmmap_physical` only.
pub record Cursor : Type 0 where
  pub offset_l4 : ℕ
  pub offset_l3 : ℕ
  pub offset_l2 : ℕ
  pub offset_l1 : ℕ
  pub offset_l0 : ℕ
  pub size : ℕ
  pub physical_addr : ℕ

-- The function returned, or the loop over a table came to its end.
pub data Mapped : Type 0 where
  complete : Vm → Mapped
  table_end : Cursor → Vm → Mapped

module _ (flags : ℕ) (leaf : (entry : ℕ) → Cursor → Vm → Run Vm) where
  -- The innermost loop: `leaf` sets the entry of one page.
  unfoldable pub map_l1 : (rounds : ℕ) → Cursor → Vm → Run Mapped
  map_l1 zero c vm = ok (table_end c vm)
  map_l1 (suc rounds) c vm = do
    vm ← leaf (entry_l1 c.offset_l4 c.offset_l3 c.offset_l2 c.offset_l1) c vm
    let space_left = sub64 arch_page_size c.offset_l0
    let rest =
        map_l1 rounds
          (record c {
            physical_addr = add64 c.physical_addr space_left;
            size = sub64 c.size space_left;
            offset_l0 = 0;
            offset_l1 = c.offset_l1 + 1;
          })
          vm
    if leb c.size space_left then ok (complete vm) else rest

  unfoldable pub map_l2 : (rounds : ℕ) → Cursor → Vm → Run Mapped
  map_l2 zero c vm = ok (table_end c vm)
  map_l2 (suc rounds) c vm = do
    vm ← fill_entry flags (entry_l2 c.offset_l4 c.offset_l3 c.offset_l2) vm
    m ← map_l1 (arch_n_entry - c.offset_l1) c vm
    elim m [
      | complete vm ↦ ok (complete vm)
      | table_end d vm ↦ map_l2 rounds (record d { offset_l1 = 0; offset_l2 = d.offset_l2 + 1 }) vm
    ]

  unfoldable pub map_l3 : (rounds : ℕ) → Cursor → Vm → Run Mapped
  map_l3 zero c vm = ok (table_end c vm)
  map_l3 (suc rounds) c vm = do
    vm ← fill_entry flags (entry_l3 c.offset_l4 c.offset_l3) vm
    m ← map_l2 (arch_n_entry - c.offset_l2) c vm
    elim m [
      | complete vm ↦ ok (complete vm)
      | table_end d vm ↦ map_l3 rounds (record d { offset_l2 = 0; offset_l3 = d.offset_l3 + 1 }) vm
    ]

  unfoldable pub map_l4 : (rounds : ℕ) → Cursor → Vm → Run Mapped
  map_l4 zero c vm = ok (table_end c vm)
  map_l4 (suc rounds) c vm = do
    vm ← fill_entry flags (entry_l4 c.offset_l4) vm
    m ← map_l3 (arch_n_entry - c.offset_l3) c vm
    elim m [
      | complete vm ↦ ok (complete vm)
      | table_end d vm ↦ map_l4 rounds (record d { offset_l3 = 0; offset_l4 = d.offset_l4 + 1 }) vm
    ]

abbrev pub start : AddressOffset64 → (size physical_addr : ℕ) → Cursor
start o size physical_addr = record {
  offset_l4 = o.plm4;
  offset_l3 = o.plm3;
  offset_l2 = o.plm2;
  offset_l1 = o.plm1;
  offset_l0 = o.plm0;
  size = size;
  physical_addr = physical_addr;
}

-- Both functions return when the last table ends, too; `kmmap` prints a message before.
abbrev pub result : Mapped → Vm
result (complete vm) = vm
result (table_end c vm) = vm

unfoldable pub kmmap : (addr size flags : ℕ) → Vm → Run Vm
kmmap addr size flags vm = do
  let c = start (offsets addr) size 0
  m ← map_l4 flags (λ entry c vm. fill_entry flags entry vm) (arch_n_entry - c.offset_l4) c vm
  ok (result m)

unfoldable pub kmmap_physical : (addr physical_addr size flags : ℕ) → Vm → Run Vm
kmmap_physical addr physical_addr size flags vm = do
  let c = start (offsets addr) size physical_addr
  m ←
      map_l4 flags (λ entry c vm. write_entry vm entry (bit_or (bit_or c.physical_addr flags) 1))
        (arch_n_entry - c.offset_l4) c vm
  ok (result m)

-- `while (address != 0 && (space = get_size(address, size)) < size) address = …;` with `rounds` of
-- fuel, and `fuel` for each search.
unfoldable pub map_physical_loop : (fuel rounds address size : ℕ) → Vm → Run ℕ
map_physical_loop fuel zero address size vm = out_of_fuel
map_physical_loop fuel (suc rounds) address size vm = if address == 0 then ok 0 else do
  space ← get_size fuel address size vm
  let again = search_empty_space fuel (add64 address space) vm >>= λ next.
      map_physical_loop fuel rounds next size vm
  if ltb space size then again else ok address

-- With no address the code logs that and goes on to map at address 0.
unfoldable pub map_physical : (fuel physical_addr size : ℕ) → Vm → Run (ℕ × Vm)
map_physical fuel physical_addr size vm = do
  first ← search_empty_space fuel (craft_addr 1 0 0 0 0) vm
  address ← map_physical_loop fuel fuel first size vm
  mapped ← kmmap_physical address physical_addr size 2 vm
  ok (address, mapped)
