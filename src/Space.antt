-- ===== src/Space.antt =====
-- kernel/src/vmmwrapper.c and kernel/src/protocol_init.c: allocation of virtual ranges, on one core.
pub mod Lock
mod Tests
use raccoon_exok.Common.{ℕ, zero, suc, ◌+◌, ◌*◌, ◌||◌, ◌==◌, if◌then◌else◌, List, []}
use raccoon_exok.Common.Run.{Run, ok, halted, out_of_fuel, ◌>>=◌}
use raccoon_exok.Common.Word.{u64, u16}
use raccoon_exok.Vmm.Address.{craft_addr}
use raccoon_exok.Vmm.Paging.{Vm}
use raccoon_exok.Vmm.Search.{search_available}
use raccoon_exok.Vmm.Map.{kmmap}
use raccoon_exok.Vmm.Unmap.{kmunmap, mem_to_upper}
use raccoon_exok.Vmm.Flags.{convert_to_arch_flags, map_present, map_user}

-- The lock `space_alloc`, 0 or 1, and the machine.
pub record Space : Type 0 where
  pub lock : ℕ
  pub vm : Vm

-- `BEGIN_BOTTLENECK`: `while (!__sync_bool_compare_and_swap(&lock, 0, 1));` with `fuel` rounds. No
-- other core acts between two rounds.
unfoldable pub begin_bottleneck : (fuel : ℕ) → Space → Run Space
begin_bottleneck zero s = out_of_fuel
begin_bottleneck (suc fuel) s =
    let again = begin_bottleneck fuel s in if s.lock == 0 then ok (record s { lock = 1 }) else again

-- `END_BOTTLENECK`
abbrev pub end_bottleneck : Space → Space
end_bottleneck s = record s { lock = u16 (s.lock + 0xffff) }

-- Without an address the function returns before it releases the lock.
unfoldable pub space_alloc : (fuel size flags : ℕ) → Space → Run (ℕ × Space)
space_alloc fuel size flags s = do
  s ← begin_bottleneck fuel s
  address ← search_available fuel (craft_addr 0 0 0 1 0) size s.vm
  let mapped = kmmap address size (convert_to_arch_flags flags) s.vm >>= λ vm.
      ok (address, end_bottleneck (record s { vm = vm }))
  if address == 0 then ok (0, s) else mapped

unfoldable pub space_free : (addr size : ℕ) → Space → Run Space
space_free addr size s = kmunmap addr size mem_to_upper s.vm >>= λ vm. ok (record s { vm = vm })
