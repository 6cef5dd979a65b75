-- ===== src/Vmm/Search.antt =====
-- The searches of arch/x86_64/src/vmm.c. Their loops run over the bit fields of an address, which are
-- 9 bits wide, so that an increment wraps and the test against 512 always holds; they run on fuel.
pub mod Empty
pub mod Available
pub mod Down
use raccoon_exok.Common.{
  ℕ, zero, suc, ◌+◌, ◌-◌, ◌*◌, ◌/◌, ◌%◌, ◌^◌, ◌==◌, ltb, leb, if◌then◌else◌, Bool, not,
}
use raccoon_exok.Common.Run.{Run, ok, halted, out_of_fuel, ◌>>=◌}
use raccoon_exok.Common.Word.{u64, add64, sub64, mul64, ◌<<◌}
use raccoon_exok.Vmm.Address.{AddressOffset64, craft_addr, split}
use raccoon_exok.Vmm.Paging.{Vm, read_entry}
use raccoon_exok.Vmm.Window.{entry_l4, entry_l3, entry_l2, entry_l1}

abbrev pub arch_n_entry : ℕ
arch_n_entry = 512

abbrev pub arch_page_size : ℕ
arch_page_size = 0x1000

-- `address.address`
abbrev pub address_of : AddressOffset64 → ℕ
address_of o =
    o.plm0 + (o.plm1 << 12) + (o.plm2 << 21) + (o.plm3 << 30) + (o.plm4 << 39) + (o.unused << 48)

-- What the body of a loop does with an entry: return, go on to the next entry of the table, or go
-- down to the table that the entry points to, which in the innermost loop is to go on as well. `S`
-- is what the search keeps besides the address.
pub data Visit {ℓ} (S : Type ℓ) : Type ℓ where
  answer : ℕ → Visit S
  skip enter : S → Visit S

-- How a loop ends.
pub data Found {ℓ} (S : Type ℓ) : Type ℓ where
  found : ℕ → Found S
  passed : AddressOffset64 → S → Found S

-- The four nested loops that the three searches share; `visit` gives the tests on an entry of each
-- level.
module _ {ℓ} {S : Type ℓ} (vm : Vm)
    (visit : (level entry : ℕ) → AddressOffset64 → S → Visit S) where
  unfoldable pub search_l1 : (fuel : ℕ) → AddressOffset64 → S → Run (Found S)
  search_l1 zero a s = out_of_fuel
  search_l1 (suc fuel) a s = if not (ltb a.plm1 arch_n_entry) then ok (passed a s) else do
    e ← read_entry vm (entry_l1 a.plm4 a.plm3 a.plm2 a.plm1)
    elim (visit 1 e a s) [
      | answer r ↦ ok (found r)
      | skip t ↦ search_l1 fuel (record a { plm1 = (a.plm1 + 1) % 512 }) t
      | enter t ↦ search_l1 fuel (record a { plm1 = (a.plm1 + 1) % 512 }) t
    ]

  unfoldable pub search_l2 : (fuel : ℕ) → AddressOffset64 → S → Run (Found S)
  search_l2 zero a s = out_of_fuel
  search_l2 (suc fuel) a s = if not (ltb a.plm2 arch_n_entry) then ok (passed a s) else do
    e ← read_entry vm (entry_l2 a.plm4 a.plm3 a.plm2)
    elim (visit 2 e a s) [
      | answer r ↦ ok (found r)
      | skip t ↦ search_l2 fuel (record a { plm2 = (a.plm2 + 1) % 512 }) t
      | enter t ↦ search_l1 fuel a t >>= λ r. elim r [
        | found x ↦ ok (found x)
        | passed b u ↦ search_l2 fuel (record b { plm1 = 0; plm2 = (b.plm2 + 1) % 512 }) u
      ]
    ]

  unfoldable pub search_l3 : (fuel : ℕ) → AddressOffset64 → S → Run (Found S)
  search_l3 zero a s = out_of_fuel
  search_l3 (suc fuel) a s = if not (ltb a.plm3 arch_n_entry) then ok (passed a s) else do
    e ← read_entry vm (entry_l3 a.plm4 a.plm3)
    elim (visit 3 e a s) [
      | answer r ↦ ok (found r)
      | skip t ↦ search_l3 fuel (record a { plm3 = (a.plm3 + 1) % 512 }) t
      | enter t ↦ search_l2 fuel a t >>= λ r. elim r [
        | found x ↦ ok (found x)
        | passed b u ↦ search_l3 fuel (record b { plm2 = 0; plm3 = (b.plm3 + 1) % 512 }) u
      ]
    ]

  unfoldable pub search_l4 : (fuel : ℕ) → AddressOffset64 → S → Run (Found S)
  search_l4 zero a s = out_of_fuel
  search_l4 (suc fuel) a s = if not (ltb a.plm4 arch_n_entry) then ok (passed a s) else do
    e ← read_entry vm (entry_l4 a.plm4)
    elim (visit 4 e a s) [
      | answer r ↦ ok (found r)
      | skip t ↦ search_l4 fuel (record a { plm4 = (a.plm4 + 1) % 512 }) t
      | enter t ↦ search_l3 fuel a t >>= λ r. elim r [
        | found x ↦ ok (found x)
        | passed b u ↦ search_l4 fuel (record b { plm3 = 0; plm4 = (b.plm4 + 1) % 512 }) u
      ]
    ]

-- `if (*entry == 0) return address.address;` on every level.
abbrev pub empty_visit : (level entry : ℕ) → AddressOffset64 → Unit {0} → Visit (Unit {0})
empty_visit level entry a s = if entry == 0 then answer (address_of a) else enter s

unfoldable pub search_empty_space : (fuel base_addr : ℕ) → Vm → Run ℕ
search_empty_space fuel base_addr vm = do
  r ← search_l4 vm empty_visit fuel (split base_addr) tt
  elim r [ found x ↦ ok x | passed b u ↦ ok 0 ]

-- An empty entry adds the size of what it would map, `1ull << shift`; the first that is not ends the
-- count.
abbrev pub size_shift : ℕ → ℕ
size_shift level =
    if level == 4 then 39 else if level == 3 then 30 else if level == 2 then 21 else 12

abbrev pub size_visit : (stop_value level entry : ℕ) → AddressOffset64 → (size : ℕ) → Visit ℕ
size_visit stop_value level entry a size =
    let larger = add64 size (1 << size_shift level) in
    if entry == 0
    then (if leb stop_value larger then answer larger else skip larger)
    else if level == 1
    then answer size
    else enter size

unfoldable pub get_size : (fuel base_addr stop_value : ℕ) → Vm → Run ℕ
get_size fuel base_addr stop_value vm = do
  r ← search_l4 vm (size_visit stop_value) fuel (split base_addr) 0
  elim r [ found x ↦ ok x | passed b size ↦ ok size ]

-- `temp_page_num` counts the empty entries of level 1 that are still wanted.
abbrev pub available_visit :
    (page_num level entry : ℕ) → AddressOffset64 → (temp_page_num : ℕ) → Visit ℕ
available_visit page_num level entry a temp_page_num =
    if level == 1
    then (if entry == 0
        then (if temp_page_num == 0
            then answer (sub64 (address_of a) (mul64 (sub64 page_num 1) arch_page_size))
            else enter (temp_page_num - 1))
        else enter page_num)
    else if entry == 0
    then answer (address_of a)
    else enter temp_page_num

abbrev pub pages_of : ℕ → ℕ
pages_of size =
    if size % arch_page_size == 0 then size / arch_page_size else size / arch_page_size + 1

unfoldable pub search_available : (fuel base_addr size : ℕ) → Vm → Run ℕ
search_available fuel base_addr size vm = do
  r ← search_l4 vm (available_visit (pages_of size)) fuel (split base_addr) (pages_of size)
  elim r [ found x ↦ ok x | passed b u ↦ ok 0 ]
