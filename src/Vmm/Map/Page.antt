-- ===== src/Vmm/Map/Page.antt =====
-- Mapping a part of one page whose tables are there: `kmmap` and `kmmap_physical` of
-- arch/x86_64/src/vmm.c.
use raccoon_exok.Common.{
  ℕ, suc, ◌+◌, ◌-◌, ◌*◌, ◌%◌, ◌^◌, ◌≤◌, ◌<◌, ◌≡◌, ◌≢◌, refl, ap, ◌∙◌, some, ◌==◌, arith, bit_or,
  leb, true, false,
}
use raccoon_exok.Common.Run.{Run, ok, halted, fault, out_of_fuel, ◌>>=◌}
use raccoon_exok.Common.Word.{sub64}
use raccoon_exok.Pmm.{Pmm, get_frame}
use raccoon_exok.Vmm.Address.{split, offsets, offsets-split}
use raccoon_exok.Vmm.Paging.{Vm, physical, translate, read_entry, write_entry}
use raccoon_exok.Vmm.Window.{entry_l4, entry_l3, entry_l2, entry_l1}
use raccoon_exok.Vmm.Tables.{OnPath, root, read_entry-OnPath, nonzero-OnPath}
use raccoon_exok.Vmm.Map.Write.{
  stored, Separate, write_entry-stored, translate-stored, present-bit_or,
}
use raccoon_exok.Vmm.Search.{arch_n_entry, arch_page_size}
use raccoon_exok.Vmm.Map.{
  Cursor, Mapped, complete, table_end, fill_entry, map_l1, map_l2, map_l3, map_l4, start, result,
  kmmap, kmmap_physical,
}

fill_entry-kept :
    (vm : Vm) (flags entry e : ℕ)
    → read_entry vm entry ≡ ok e
    → (e == 0) ≡ false
    → fill_entry flags entry vm ≡ ok vm
unfolding fill_entry
fill_entry-kept vm flags entry e r nz = ground (arith, r, nz)

-- What the loops come to in the first page.
abbrev outcome : Run Vm → Run Mapped
outcome r = r >>= λ vm. ok (complete vm)

left_in_table : (i : ℕ) → i < 512 → arch_n_entry - i ≡ suc (511 - i)
left_in_table i h = omega arith

outcome-result : (r : Run Vm) → (outcome r >>= λ m. ok (result m)) ≡ (r >>= λ vm. ok vm)
outcome-result (ok vm) = refl
outcome-result halted = refl
outcome-result fault = refl
outcome-result out_of_fuel = refl

abbrev leaf_run : ((entry : ℕ) → Cursor → Vm → Run Vm) → Cursor → Vm → Run Vm
leaf_run leaf c vm = leaf (entry_l1 c.offset_l4 c.offset_l3 c.offset_l2 c.offset_l1) c vm

outcome_stays :
    (r : Run Vm) (next : Cursor → Vm → Run Mapped)
    → (outcome r >>= λ m. elim m [ complete vm ↦ ok (complete vm) | table_end d vm ↦ next d vm ])
      ≡ outcome r
outcome_stays (ok vm) next = refl
outcome_stays halted next = refl
outcome_stays fault next = refl
outcome_stays out_of_fuel next = refl

module _ (flags : ℕ) (leaf : (entry : ℕ) → Cursor → Vm → Run Vm) (vm : Vm) (c : Cursor)
    (t3 t2 t1 : ℕ) (tables : OnPath vm c.offset_l4 c.offset_l3 c.offset_l2 t3 t2 t1)
    (h1 : c.offset_l1 < 512) (h0 : c.offset_l0 < 4096) (fits : c.size + c.offset_l0 ≤ 4096) where
  map_l1-page : (rounds : ℕ) → map_l1 flags leaf (suc rounds) c vm ≡ outcome (leaf_run leaf c vm)
  unfolding map_l1
  map_l1-page rounds = simp fits_page refl
    where
      fits_page : leb c.size (sub64 arch_page_size c.offset_l0) ≡ true
      fits_page = ground arith

  reads :
      (read_entry vm (entry_l4 c.offset_l4) ≡ ok (physical vm (root vm + c.offset_l4 * 8)))
      × (read_entry vm (entry_l3 c.offset_l4 c.offset_l3) ≡ ok (physical vm (t3 + c.offset_l3 * 8)))
      × (read_entry vm (entry_l2 c.offset_l4 c.offset_l3 c.offset_l2)
          ≡ ok (physical vm (t2 + c.offset_l2 * 8)))
  reads =
      let (r4, r3, r2, r1) =
        read_entry-OnPath vm c.offset_l4 c.offset_l3 c.offset_l2 t3 t2 t1 tables c.offset_l1 h1 in
      (r4, r3, r2)

  nonzero :
      ((physical vm (root vm + c.offset_l4 * 8) == 0) ≡ false)
      × ((physical vm (t3 + c.offset_l3 * 8) == 0) ≡ false)
      × ((physical vm (t2 + c.offset_l2 * 8) == 0) ≡ false)
  nonzero = nonzero-OnPath vm c.offset_l4 c.offset_l3 c.offset_l2 t3 t2 t1 tables

  inner_l1 : map_l1 flags leaf (arch_n_entry - c.offset_l1) c vm ≡ outcome (leaf_run leaf c vm)
  inner_l1 =
      ap (λ (r : ℕ). map_l1 flags leaf r c vm) (left_in_table c.offset_l1 h1)
      ∙ map_l1-page (511 - c.offset_l1)

  map_l2-page : (rounds : ℕ) → map_l2 flags leaf (suc rounds) c vm ≡ outcome (leaf_run leaf c vm)
  unfolding map_l2
  map_l2-page rounds =
      simp
        (
          fill_entry-kept vm flags (entry_l2 c.offset_l4 c.offset_l3 c.offset_l2)
              (physical vm (t2 + c.offset_l2 * 8)) reads.2 nonzero.2,
          inner_l1,
        )
        (outcome_stays (leaf_run leaf c vm) _)

  inner_l2 : map_l2 flags leaf (arch_n_entry - c.offset_l2) c vm ≡ outcome (leaf_run leaf c vm)
  inner_l2 =
      ap (λ (r : ℕ). map_l2 flags leaf r c vm) (left_in_table c.offset_l2 tables.l2_lt)
      ∙ map_l2-page (511 - c.offset_l2)

  map_l3-page : (rounds : ℕ) → map_l3 flags leaf (suc rounds) c vm ≡ outcome (leaf_run leaf c vm)
  unfolding map_l3
  map_l3-page rounds =
      simp
        (
          fill_entry-kept vm flags (entry_l3 c.offset_l4 c.offset_l3)
              (physical vm (t3 + c.offset_l3 * 8)) reads.1 nonzero.1,
          inner_l2,
        )
        (outcome_stays (leaf_run leaf c vm) _)

  inner_l3 : map_l3 flags leaf (arch_n_entry - c.offset_l3) c vm ≡ outcome (leaf_run leaf c vm)
  inner_l3 =
      ap (λ (r : ℕ). map_l3 flags leaf r c vm) (left_in_table c.offset_l3 tables.l3_lt)
      ∙ map_l3-page (511 - c.offset_l3)

  map_l4-page : (rounds : ℕ) → map_l4 flags leaf (suc rounds) c vm ≡ outcome (leaf_run leaf c vm)
  unfolding map_l4
  map_l4-page rounds =
      simp
        (
          fill_entry-kept vm flags (entry_l4 c.offset_l4) (physical vm (root vm + c.offset_l4 * 8))
              reads.0 nonzero.0,
          inner_l3,
        )
        (outcome_stays (leaf_run leaf c vm) _)

  inner_l4 : map_l4 flags leaf (arch_n_entry - c.offset_l4) c vm ≡ outcome (leaf_run leaf c vm)
  inner_l4 =
      ap (λ (r : ℕ). map_l4 flags leaf r c vm) (left_in_table c.offset_l4 tables.l4_lt)
      ∙ map_l4-page (511 - c.offset_l4)

-- `addr` with its tables, and a range of at most one page from it on.
module _ (vm : Vm) (addr size flags t3 t2 t1 : ℕ)
    (tables : OnPath vm (split addr).plm4 (split addr).plm3 (split addr).plm2 t3 t2 t1)
    (fits : size + addr % 4096 ≤ 4096) where
  page_entry : ℕ
  page_entry = entry_l1 (split addr).plm4 (split addr).plm3 (split addr).plm2 (split addr).plm1

  map_l4-page_of :
      (leaf : (entry : ℕ) → Cursor → Vm → Run Vm) (pa : ℕ)
      → (map_l4 flags leaf (arch_n_entry - (offsets addr).plm4) (start (offsets addr) size pa) vm
          >>= λ m. ok (result m))
        ≡ (leaf page_entry (start (split addr) size pa) vm >>= λ vm. ok vm)
  unfolding page_entry
  map_l4-page_of leaf pa =
      ap
        (λ o. map_l4 flags leaf (arch_n_entry - o.plm4) (start o size pa) vm >>= λ m. ok (result m))
        (offsets-split addr)
      ∙ ap (λ r. r >>= λ m. ok (result m))
          (inner_l4 flags leaf vm (start (split addr) size pa) t3 t2 t1 tables (omega arith)
            (omega arith) fits)
      ∙ outcome-result (leaf_run leaf (start (split addr) size pa) vm)

  page_read : read_entry vm page_entry ≡ ok (physical vm (t1 + (split addr).plm1 * 8))
  unfolding page_entry
  page_read =
      (read_entry-OnPath vm (split addr).plm4 (split addr).plm3 (split addr).plm2 t3 t2 t1 tables
        (split addr).plm1 (omega arith)).3

  fill_entry-fresh :
      (frame : ℕ) (pmm : Pmm)
      → get_frame vm.pmm ≡ ok (frame, pmm)
      → physical vm (t1 + (split addr).plm1 * 8) ≡ 0
      → fill_entry flags page_entry vm
        ≡ write_entry (record vm { pmm = pmm }) page_entry (bit_or (bit_or frame flags) 1)
  unfolding fill_entry
  fill_entry-fresh frame pmm got free = ground (arith, page_read, got, free)

  -- `kmmap_physical` on a part of one page whose tables are there, with a page-aligned physical
  -- address below `2 ^ 52` and flags of 12 bits: it succeeds, and afterwards the address is mapped
  -- to the same place in the physical page, whatever its entry was before.
  pub kmmap_physical-maps :
      (pa : ℕ)
      → pa % 4096 ≡ 0
      → pa < 2 ^ 52
      → flags < 4096
      → Separate vm addr t3 t2 t1
      → (vm' : Vm) × (kmmap_physical addr pa size flags vm ≡ ok vm')
        × (translate (physical vm') vm'.cr3 addr ≡ some (pa + addr % 4096))
  unfolding kmmap_physical page_entry
  kmmap_physical-maps pa aligned small few apart =
      let value = bit_or (bit_or pa flags) 1 in
      (
        stored vm (t1 + (split addr).plm1 * 8) value,
        map_l4-page_of
              (λ entry c vm. write_entry vm entry (bit_or (bit_or c.physical_addr flags) 1)) pa
            ∙ ap (λ r. r >>= λ vm. ok vm) (write_entry-stored vm addr t3 t2 t1 value pa tables),
        translate-stored vm addr t3 t2 t1 value pa tables apart
            (present-bit_or pa flags aligned small few),
      )

  -- `kmmap` on a part of one page that is mapped already changes nothing.
  pub kmmap-mapped : physical vm (t1 + (split addr).plm1 * 8) ≢ 0 → kmmap addr size flags vm ≡ ok vm
  unfolding kmmap
  kmmap-mapped used =
      map_l4-page_of (λ entry c vm. fill_entry flags entry vm) 0
      ∙ ap (λ r. r >>= λ vm. ok vm)
          (fill_entry-kept vm flags page_entry (physical vm (t1 + (split addr).plm1 * 8)) page_read
            (ground arith))

  -- `kmmap` of a request that fits in the rest of its page, when the tables of
  -- the levels 3 to 1 on the path of the address are there, none of them large, and the directory is
  -- its own entry 50, both before and after `get_frame`, which gives a page-aligned frame below
  -- `2 ^ 52`, when the flags are below 4096, the entry of the page is 0, and it is not itself one of
  -- the three entries that lead to its table: it succeeds, and the address is mapped into that frame.
  pub kmmap-maps :
      (frame : ℕ) (pmm : Pmm)
      → (let vm' = record vm { pmm = pmm } in
          get_frame vm.pmm ≡ ok (frame, pmm)
          → frame % 4096 ≡ 0
          → frame < 2 ^ 52
          → flags < 4096
          → physical vm (t1 + (split addr).plm1 * 8) ≡ 0
          → OnPath vm' (split addr).plm4 (split addr).plm3 (split addr).plm2 t3 t2 t1
          → Separate vm' addr t3 t2 t1
          → (end : Vm) × (kmmap addr size flags vm ≡ ok end)
            × (translate (physical end) end.cr3 addr ≡ some (frame + addr % 4096)))
  unfolding kmmap page_entry
  kmmap-maps frame pmm got aligned small few free tables' apart =
      let vm' = record vm { pmm = pmm } in
      let value = bit_or (bit_or frame flags) 1 in
      (
        stored vm' (t1 + (split addr).plm1 * 8) value,
        map_l4-page_of (λ entry c vm. fill_entry flags entry vm) 0
            ∙ ap (λ r. r >>= λ vm. ok vm)
                (fill_entry-fresh frame pmm got free
                  ∙ write_entry-stored vm' addr t3 t2 t1 value frame tables'),
        translate-stored vm' addr t3 t2 t1 value frame tables' apart
            (present-bit_or frame flags aligned small few),
      )
