-- ===== src/Space/Lock.antt =====
-- The lock of `space_alloc` of kernel/src/vmmwrapper.c, and what a call maps.
use raccoon_exok.Common.{
  ℕ, zero, suc, ◌+◌, ◌*◌, ◌%◌, ◌^◌, ◌≤◌, ◌<◌, ◌≡◌, refl, ap, ◌∙◌, some, arith,
}
use raccoon_exok.Common.Run.{ok}
use raccoon_exok.Pmm.{Pmm, get_frame}
use raccoon_exok.Vmm.Address.{craft_addr}
use raccoon_exok.Vmm.Paging.{physical, translate}
use raccoon_exok.Vmm.Flags.{convert_to_arch_flags}
use raccoon_exok.Vmm.Tables.{OnPath}
use raccoon_exok.Vmm.Search.{search_available, pages_of}
use raccoon_exok.Vmm.Search.Available.{search_available-finds}
use raccoon_exok.Vmm.Map.Write.{Separate}
use raccoon_exok.Vmm.Map.Page.{kmmap-maps}
use raccoon_exok.Space.{Space, begin_bottleneck, space_alloc}

begin_bottleneck-free :
    (fuel : ℕ) (s : Space)
    → s.lock ≡ 0
    → 0 < fuel
    → begin_bottleneck fuel s ≡ ok (record s { lock = 1 })
unfolding begin_bottleneck
begin_bottleneck-free zero s unlocked enough = elim enough [ ]
begin_bottleneck-free (suc fuel) s unlocked enough = simp unlocked refl

module _ (size flags : ℕ) (s : Space) (t3 t2 t1 frame : ℕ) (pmm : Pmm)
    (tables : OnPath s.vm 0 0 0 t3 t2 t1) where
  -- A request of 1 to 4096 bytes, of a space whose lock is free, when the tables of the levels 3 to
  -- 1 for the first addresses are there, none of them large, and the directory is its own entry 50,
  -- when the entries of the pages 1 and 2 are 0, `get_frame` gives a page-aligned frame below
  -- `2 ^ 52` and leaves these tables there, the entry of page 2 is not one of the entries that lead
  -- to its table, and the flags, as converted for the processor, are below 4096: with 5 rounds of
  -- fuel or more `space_alloc` answers with page 2, which is mapped into the frame, and the lock is
  -- free again.
  pub space_alloc-maps :
      (fuel : ℕ)
      → (let vm' = record s.vm { pmm = pmm } in
          s.lock ≡ 0
          → 0 < size
          → size ≤ 4096
          → 4 < fuel
          → ((i : ℕ) → 1 ≤ i → i ≤ 2 → physical s.vm (t1 + i * 8) ≡ 0)
          → convert_to_arch_flags flags < 4096
          → get_frame s.vm.pmm ≡ ok (frame, pmm)
          → frame % 4096 ≡ 0
          → frame < 2 ^ 52
          → OnPath vm' 0 0 0 t3 t2 t1
          → Separate vm' 0x2000 t3 t2 t1
          → (s' : Space) × (space_alloc fuel size flags s ≡ ok (0x2000, s'))
            × (translate (physical s'.vm) s'.vm.cr3 0x2000 ≡ some frame)
            × (s'.lock ≡ 0))
  unfolding space_alloc craft_addr
  space_alloc-maps fuel unlocked some_size fits enough free few got aligned small tables' apart =
      let one : pages_of size ≡ 1 = ground arith in
      let found : search_available fuel (craft_addr 0 0 0 1 0) size s.vm ≡ ok 0x2000 =
        search_available-finds s.vm 0x1000 size t3 t2 t1 tables fuel (omega arith) (omega arith)
          (omega arith) (omega arith) (λ i g h. free i g (omega arith)) in
      let (end, mapped, at) =
        kmmap-maps s.vm 0x2000 size (convert_to_arch_flags flags) t3 t2 t1 tables (omega arith)
          frame pmm got aligned small few (free 2 (omega arith) (omega arith)) tables' apart in
      (
        record s { lock = 0; vm = end },
        simp (begin_bottleneck-free fuel s unlocked (omega arith), found, mapped) refl,
        at ∙ ap some (omega arith),
        refl,
      )
