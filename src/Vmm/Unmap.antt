-- ===== src/Vmm/Unmap.antt =====
-- Unmapping and new page directories: `is_frame_empty`, `kmunmap` and `create_page_directory` of
-- arch/x86_64/src/vmm.c.
pub mod Directory
use raccoon_exok.Common.{
  ℕ, zero, suc, ◌+◌, ◌-◌, ◌*◌, ◌^◌, bit_and, bit_or, leb, ltb, ◌==◌, ◌||◌, if◌then◌else◌, Bool,
  true, false, write,
}
use raccoon_exok.Common.Run.{Run, ok, fault, out_of_fuel, ◌>>=◌}
use raccoon_exok.Common.Word.{add64, sub64}
use raccoon_exok.Pmm.{get_frame, free_frame, physical_to_stivale}
use raccoon_exok.Vmm.Address.{AddressOffset64, offsets}
use raccoon_exok.Vmm.Paging.{Vm, read_entry, write_entry}
use raccoon_exok.Vmm.Window.{entry_l4, entry_l3, entry_l2, entry_l1, recursive_mapping_entry}
use raccoon_exok.Vmm.Search.{arch_n_entry, arch_page_size}
use raccoon_exok.Vmm.Map.{Cursor, start, Mapped, complete, table_end, result, kmmap}

-- `while (frame[i] == 0 && i < ARCH_N_ENTRY) i++;` with `rounds` left: the word is read before the
-- bound is tested, so that the word behind the frame is read as well.
unfoldable pub empty_loop : (rounds frame i : ℕ) → Vm → Run ℕ
empty_loop zero frame i vm = out_of_fuel
empty_loop (suc rounds) frame i vm = do
  word ← read_entry vm (add64 frame (i * 8))
  let rest = empty_loop rounds frame (i + 1) vm
  if word == 0 then (if ltb i arch_n_entry then rest else ok i) else ok i

unfoldable pub is_frame_empty : (frame : ℕ) → Vm → Run Bool
is_frame_empty frame vm = do
  i ← empty_loop (arch_n_entry + 1) (bit_and frame 0xfffffffffffff000) 0 vm
  ok (i == arch_n_entry)

-- `free_frame(frame)` on the frame manager of the machine.
abbrev pub release : ℕ → Vm → Run Vm
release frame vm = free_frame frame vm.pmm >>= λ pmm. ok (record vm { pmm = pmm })

-- `if (is_frame_empty(*entry)) { *entry = 0; free_frame(entry); }`
unfoldable pub drop_table : (entry : ℕ) → Vm → Run Vm
drop_table entry vm = do
  e ← read_entry vm entry
  empty ← is_frame_empty e vm
  if empty then (write_entry vm entry 0 >>= release entry) else ok vm

-- The innermost loop, over the pages of one table.
unfoldable pub unmap_l1 : (rounds : ℕ) → Cursor → Vm → Run Mapped
unmap_l1 zero c vm = ok (table_end c vm)
unmap_l1 (suc rounds) c vm =
    let entry = entry_l1 c.offset_l4 c.offset_l3 c.offset_l2 c.offset_l1 in
    let freed = read_entry vm entry >>= λ e. release e vm >>= λ vm. write_entry vm entry 0 in
    let whole = c.offset_l0 == 0 in
    let size = if whole then sub64 c.size arch_page_size else c.size in
    let next = record c { size = size; offset_l0 = 0; offset_l1 = c.offset_l1 + 1 } in
    (if whole then freed else ok vm) >>= λ vm.
    let rest = unmap_l1 rounds next vm in if ltb size arch_page_size then ok (complete vm) else rest

unfoldable pub unmap_l2 : (rounds : ℕ) → Cursor → Vm → Run Mapped
unmap_l2 zero c vm = ok (table_end c vm)
unmap_l2 (suc rounds) c vm = unmap_l1 (arch_n_entry - c.offset_l1) c vm >>= λ m. elim m [
  | complete vm ↦ ok (complete vm)
  | table_end d vm ↦
      drop_table (entry_l2 d.offset_l4 d.offset_l3 d.offset_l2) vm
      >>= unmap_l2 rounds (record d { offset_l1 = 0; offset_l2 = d.offset_l2 + 1 })
]

unfoldable pub unmap_l3 : (rounds : ℕ) → Cursor → Vm → Run Mapped
unmap_l3 zero c vm = ok (table_end c vm)
unmap_l3 (suc rounds) c vm = unmap_l2 (arch_n_entry - c.offset_l2) c vm >>= λ m. elim m [
  | complete vm ↦ ok (complete vm)
  | table_end d vm ↦
      drop_table (entry_l3 d.offset_l4 d.offset_l3) vm
      >>= unmap_l3 rounds (record d { offset_l2 = 0; offset_l3 = d.offset_l3 + 1 })
]

-- The loop of level 4 sets `offset_l3` back before it looks at its entry, which comes to the same.
unfoldable pub unmap_l4 : (rounds : ℕ) → Cursor → Vm → Run Mapped
unmap_l4 zero c vm = ok (table_end c vm)
unmap_l4 (suc rounds) c vm = unmap_l3 (arch_n_entry - c.offset_l3) c vm >>= λ m. elim m [
  | complete vm ↦ ok (complete vm)
  | table_end d vm ↦
      drop_table (entry_l4 d.offset_l4) vm
      >>= unmap_l4 rounds (record d { offset_l3 = 0; offset_l4 = d.offset_l4 + 1 })
]

-- `mem_direction`
pub data MemDirection : Type 0 where
  mem_to_upper mem_to_lower : MemDirection

unfoldable pub kmunmap : (addr size : ℕ) → MemDirection → Vm → Run Vm
kmunmap addr size direction vm =
    let base : ℕ = elim direction [ mem_to_lower ↦ sub64 addr size | mem_to_upper ↦ addr ] in
    let o = offsets base in
    let left = if o.plm0 == 0 then size else sub64 size (sub64 arch_page_size o.plm0) in
    let c = start o left 0 in
    let run = unmap_l4 (arch_n_entry - c.offset_l4) c vm >>= λ m. ok (result m) in
    if leb left (arch_page_size - 1) || leb left o.plm0 then ok vm else run

-- `for (i = 0; i < 512; i++) new_pd[i] = limine_page_directory_addr[i];` with `rounds` left, over the
-- words at virtual addresses of the loader's map.
unfoldable pub copy_directory : (rounds i new_pd old_pd : ℕ) → (ℕ → ℕ) → ℕ → ℕ
copy_directory zero i new_pd old_pd words = words
copy_directory (suc rounds) i new_pd old_pd words =
    copy_directory rounds (i + 1) new_pd old_pd
      (write words (add64 new_pd (i * 8)) (words (add64 old_pd (i * 8))))

-- `physical_to_stivale` of a frame whose words are then accessed. The loader maps the first 2 GiB
-- there; behind them the address wraps around to the start of the address space.
unfoldable pub direct_map : ℕ → Run ℕ
direct_map frame = if leb (frame + 4096) (2 ^ 31) then ok (physical_to_stivale frame) else fault

unfoldable pub create_page_directory : Vm → Run (ℕ × Vm)
create_page_directory vm = do
  (new_pdp, pmm) ← get_frame vm.pmm
  new_pd ← direct_map new_pdp
  let words = copy_directory 512 0 new_pd vm.limine_page_directory_addr pmm.words
  let entry = bit_or (bit_or new_pdp 3) 4
  let words = write words (add64 new_pd (recursive_mapping_entry * 8)) entry
  ok (new_pdp, record vm { pmm = record pmm { words = write words new_pd 0 } })

-- `init_vmm`: the copy of the directory that it makes is in a frame that nothing refers to.
unfoldable pub init_vmm : Vm → Run Vm
init_vmm vm = do
  old_pd ← direct_map vm.cr3
  (new_pdp, pmm) ← get_frame vm.pmm
  new_pd ← direct_map new_pdp
  ok (record vm {
    limine_page_directory_addr = old_pd;
    pmm = record pmm { words = copy_directory 512 0 new_pd old_pd pmm.words };
  })

-- The page of `setup_context_frame`, which then sets a bit of the register CR4.
abbrev pub setup_context_frame : Vm → Run Vm
setup_context_frame vm = kmmap 0x7ffffffff000 512 2 vm
