-- ===== src/Space/Tests.antt =====
-- One page of the machine of Vmm/Tests/Machine, and a machine whose pages 511 and 0 alone are free.
use raccoon_exok.Common.{
  ℕ, ◌+◌, ◌*◌, ◌/◌, ◌%◌, ◌^◌, ◌≤◌, ◌≡◌, refl, some, ◌||◌, ◌==◌, if◌then◌else◌, arith,
}
use raccoon_exok.Common.Run.{ok, out_of_fuel}
use raccoon_exok.Pmm.{physical_to_stivale}
use raccoon_exok.Vmm.Address.{craft_addr}
use raccoon_exok.Vmm.Paging.{physical, next_table, translate, read_entry}
use raccoon_exok.Vmm.Flags.{convert_to_arch_flags}
use raccoon_exok.Vmm.Search.{search_available, search_l4, search_l3, search_l2, search_l1}
use raccoon_exok.Vmm.Tests.Machine.{ram, frames, machine, machine-OnPath}
use raccoon_exok.Vmm.Tests.Paging.{taken_frames, taken-OnPath, first_frame}
use raccoon_exok.Space.{Space, begin_bottleneck, space_alloc}
use raccoon_exok.Space.Lock.{space_alloc-maps}

abbrev space : Space
space = record { lock = 0; vm = machine }

space_alloc-maps_example :
    (s' : Space) × (space_alloc 9 100 5 space ≡ ok (0x2000, s'))
    × (translate (physical s'.vm) s'.vm.cr3 0x2000 ≡ some 0x100000)
    × (s'.lock ≡ 0)
unfolding physical_to_stivale convert_to_arch_flags
space_alloc-maps_example =
    space_alloc-maps 100 5 space 0x2000 0x3000 0x4000 0x100000 taken_frames machine-OnPath 9 refl
      (omega arith) (omega arith) (omega arith) two_free (omega arith) first_frame refl
      (omega arith) taken-OnPath (omega arith, omega arith, omega arith)
  where
    two_free : (i : ℕ) → 1 ≤ i → i ≤ 2 → physical machine (0x4000 + i * 8) ≡ 0
    two_free i g h = ground arith

abbrev wrapped_ram : ℕ → ℕ
wrapped_ram p = if p / 4096 == 4 then (if p == 0x4000 || p == 0x4ff8 then 0 else 0x9003) else ram p

abbrev wrapped : Space
wrapped = record {
  lock = 0;
  vm = record machine {
    pmm = record frames { words = λ a. wrapped_ram ((a + 0x80000000) % 2 ^ 64) };
  };
}

-- The search answers 0 here, and the lock stays taken: the next call waits.
left_locked : space_alloc 520 4096 5 wrapped ≡ ok (0, record wrapped { lock = 1 })
unfolding physical_to_stivale search_available search_l4 craft_addr read_entry translate search_l3
    search_l2 search_l1 next_table space_alloc begin_bottleneck
left_locked = refl

next_call_waits : space_alloc 520 4096 5 (record wrapped { lock = 1 }) ≡ out_of_fuel
unfolding space_alloc begin_bottleneck
next_call_waits = refl
