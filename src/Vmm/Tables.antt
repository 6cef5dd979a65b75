-- ===== src/Vmm/Tables.antt =====
-- The tables on the path of an address, as arch/x86_64/src/vmm.c reads their entries.
use raccoon_exok.Common.{ℕ, ◌+◌, ◌*◌, ◌<◌, ◌≡◌, ap, Option, none, some, ◌==◌, false, arith}
use raccoon_exok.Common.Run.{ok, fault}
use raccoon_exok.Vmm.Paging.{Vm, physical, frame_base, next_table, table_at, translate, read_entry}
use raccoon_exok.Vmm.Window.{IsRecursive, entry_l4, entry_l3, entry_l2, entry_l1, translate-window}

abbrev pub root : Vm → ℕ
root vm = frame_base vm.cr3

-- Tables at `t3`, `t2` and `t1` are on the path of the indices `l4`, `l3` and `l2`, and the table of
-- level 4 is its own entry 50.
pub record OnPath (vm : Vm) (l4 l3 l2 t3 t2 t1 : ℕ) : Type 0 where
  pub recursive : IsRecursive (physical vm) vm.cr3
  pub at_l4 : table_at (physical vm) (root vm) l4 ≡ some t3
  pub at_l3 : table_at (physical vm) t3 l3 ≡ some t2
  pub at_l2 : table_at (physical vm) t2 l2 ≡ some t1
  pub l4_lt : l4 < 512
  pub l3_lt : l3 < 512
  pub l2_lt : l2 < 512

read_entry-translate :
    (vm : Vm) (entry p : ℕ)
    → translate (physical vm) vm.cr3 entry ≡ some p
    → read_entry vm entry ≡ ok (physical vm p)
unfolding read_entry
read_entry-translate vm entry p e =
    ap (λ (o : Option ℕ). elim o [ none ↦ fault | some q ↦ ok (physical vm q) ]) e

module _ (vm : Vm) (l4 l3 l2 t3 t2 t1 : ℕ) (tables : OnPath vm l4 l3 l2 t3 t2 t1) where
  -- The crafted addresses read the entries of the four tables.
  pub read_entry-OnPath :
      (l1 : ℕ)
      → l1 < 512
      → (read_entry vm (entry_l4 l4) ≡ ok (physical vm (root vm + l4 * 8)))
        × (read_entry vm (entry_l3 l4 l3) ≡ ok (physical vm (t3 + l3 * 8)))
        × (read_entry vm (entry_l2 l4 l3 l2) ≡ ok (physical vm (t2 + l2 * 8)))
        × (read_entry vm (entry_l1 l4 l3 l2 l1) ≡ ok (physical vm (t1 + l1 * 8)))
  read_entry-OnPath l1 h =
      let (w4, w3, w2, w1) =
        translate-window (physical vm) vm.cr3 tables.recursive l4 l3 l2 l1 t3 t2 t1 tables.l4_lt
          tables.l3_lt tables.l2_lt h tables.at_l4 tables.at_l3 tables.at_l2 in
      (
        read_entry-translate vm (entry_l4 l4) _ w4,
        read_entry-translate vm (entry_l3 l4 l3) _ w3,
        read_entry-translate vm (entry_l2 l4 l3 l2) _ w2,
        read_entry-translate vm (entry_l1 l4 l3 l2 l1) _ w1,
      )

  next_table-nonzero : (e t : ℕ) → next_table e ≡ some t → (e == 0) ≡ false
  unfolding next_table
  next_table-nonzero e t h = ground arith

  -- The entries that lead to a table are not zero.
  pub nonzero-OnPath :
      ((physical vm (root vm + l4 * 8) == 0) ≡ false)
      × ((physical vm (t3 + l3 * 8) == 0) ≡ false)
      × ((physical vm (t2 + l2 * 8) == 0) ≡ false)
  nonzero-OnPath = (
    next_table-nonzero (physical vm (root vm + l4 * 8)) t3 tables.at_l4,
    next_table-nonzero (physical vm (t3 + l3 * 8)) t2 tables.at_l3,
    next_table-nonzero (physical vm (t2 + l2 * 8)) t1 tables.at_l2,
  )
