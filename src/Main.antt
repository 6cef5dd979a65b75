-- ===== src/Main.antt =====
-- kernel/src/main.c: which cores are awoken for which programs, and kernel/src/pmap_recorder.c.
pub mod Names
pub mod Loops
pub mod Awoken
pub mod Start
mod Tests
use raccoon_exok.Common.{
  ℕ, zero, suc, ◌+◌, ◌-◌, Bool, not, Option, none, some, get_elem?, ltb, ◌==◌, if◌then◌else◌, write,
}
use raccoon_exok.Common.Run.{Run, ok, halted, fault, ◌>>=◌}
use raccoon_exok.Common.Limits.{max_core}
use raccoon_exok.Memory.{Memory}
use raccoon_exok.Strings.{strcmp}
use raccoon_exok.Parse.{Init}

-- `pmaps` and `entries`, of MAX_CORE entries each.
pub record Recorder : Type 0 where
  pub pmaps : ℕ → ℕ
  pub entries : ℕ → ℕ

unfoldable pub store_pmap : (pmap core : ℕ) → Recorder → Run Recorder
store_pmap pmap core r =
    if ltb core max_core then ok (record r { pmaps = write r.pmaps core pmap }) else fault

unfoldable pub load_pmap : (core : ℕ) → Recorder → Run ℕ
load_pmap core r = if ltb core max_core then ok (r.pmaps core) else fault

unfoldable pub store_entry : (entry core : ℕ) → Recorder → Run Recorder
store_entry entry core r =
    if ltb core max_core then ok (record r { entries = write r.entries core entry }) else fault

unfoldable pub load_entry : (core : ℕ) → Recorder → Run ℕ
load_entry core r = if ltb core max_core then ok (r.entries core) else fault

-- What the core does last: it waits for the recorded entry of another core and jumps there under that
-- core's page map, or launches its own program, or halts.
pub data Ending : Type 0 where
  joins : (y : ℕ) → Ending
  launches halts : Ending

-- `!strcmp(p, q)` for the texts at two places.
unfoldable pub same : Memory → (fuel p q : ℕ) → Run Bool
same mem fuel p q = strcmp mem fuel p q >>= λ differs. ok (not differs)

abbrev pub program : Init → (i : ℕ) → Run ℕ
program parsed i = elim (get_elem? parsed.programs i) [ none ↦ fault | some p ↦ ok p ]

-- The memory, fuel for a comparison, the address of "HANG", and that of `entry_launch`.
module _ (mem : Memory) (fuel hang entry_launch : ℕ) where
  -- `!strcmp(parsed.programs[y], parsed.programs[i])` for `rounds` numbers `y` from the given one on.
  unfoldable pub twin_loop : Init → (i rounds y : ℕ) → Run (Option ℕ)
  twin_loop parsed i zero y = ok none
  twin_loop parsed i (suc rounds) y = do
    p ← program parsed y
    q ← program parsed i
    twin ← same mem fuel p q
    let rest = twin_loop parsed i rounds (y + 1)
    if twin then ok (some y) else rest

  -- The loop over the cores from `i` on: `launching_addresses`, and the core that was joined.
  unfoldable pub wake_loop : Init → (core rounds i : ℕ) → (ℕ → ℕ) → Run ((ℕ → ℕ) × Option ℕ)
  wake_loop parsed core zero i addresses = ok (addresses, none)
  wake_loop parsed core (suc rounds) i addresses = do
    p ← program parsed i
    hanging ← same mem fuel p hang
    let next = wake_loop parsed core rounds (i + 1) addresses
    let awake = wake_loop parsed core rounds (i + 1) (write addresses i entry_launch)
    let woken = twin_loop parsed i (i - 1) 1 >>= λ twin. elim twin [
      | none ↦ awake
      | some y ↦ ok (addresses, some y)
    ]
    if hanging then next else if core == i then next else woken

  -- Behind the loop.
  unfoldable pub own_program : Init → (core : ℕ) → Run Ending
  own_program parsed core = do
    p ← program parsed core
    hanging ← same mem fuel p hang
    let own = twin_loop parsed core (parsed.required_cores - 1) 1 >>= λ twin.
        ok (elim twin [ none ↦ launches | some y ↦ joins y ])
    if hanging then ok halts else own

  -- `kernel_main` behind `parse_init`, with `core_number` cores.
  unfoldable pub kernel_main : Init → (core core_number : ℕ) → (ℕ → ℕ) → Run ((ℕ → ℕ) × Ending)
  kernel_main parsed core core_number addresses =
      if ltb core_number parsed.required_cores then halted else do
        (addresses, joined) ← wake_loop parsed core parsed.required_cores 0 addresses
        elim joined [
          | some y ↦ ok (addresses, joins y)
          | none ↦ own_program parsed core >>= λ ending. ok (addresses, ending)
        ]
