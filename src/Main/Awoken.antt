-- ===== src/Main/Awoken.antt =====
-- Which cores kernel_main of kernel/src/main.c awakes.
use raccoon_exok.Common.{
  ℕ, suc, ◌+◌, ◌-◌, ◌<◌, ◌≤◌, ◌≡◌, ◌∙◌, ap, true, false, none, some, List, if◌then◌else◌, arith,
}
use raccoon_exok.Common.Run.{ok}
use raccoon_exok.Memory.{Memory, StrAt}
use raccoon_exok.Memory.Text.{codes}
use raccoon_exok.Strings.Equality.{same_text}
use raccoon_exok.Parse.{Init}
use raccoon_exok.Main.{joins, launches, halts, twin_loop, wake_loop, kernel_main}
use raccoon_exok.Main.Names.{Named, is_hang, is_woken, Distinct, twin_loop-first}
use raccoon_exok.Main.Loops.{wake_loop-twin, wake_loop-prefix, wake_loop-zero, own_program-alone}

module _ (mem : Memory) (fuel hang entry_launch : ℕ) (parsed : Init) (n : ℕ) (texts : ℕ → List ℕ)
    (named : Named mem fuel parsed n texts) (hang_text : StrAt mem hang (codes "HANG")) where
  -- On core 0, with no more required cores than there are and programs that differ but for "HANG":
  -- exactly the other cores whose program is not "HANG" are awoken, and core 0 then launches its own
  -- program, or halts if that is "HANG".
  pub kernel_main-awakes :
      (core_number : ℕ) (addresses : ℕ → ℕ)
      → n ≡ parsed.required_cores
      → n ≤ core_number
      → 0 < n
      → Distinct texts n
      → ((k : ℕ)
          → 1 ≤ k
          → k < n
          → is_hang (texts 0) ≡ false
          → same_text (texts k) (texts 0) ≡ false)
      → (addresses' : ℕ → ℕ) × (kernel_main mem fuel hang entry_launch parsed 0 core_number
            addresses
          ≡ ok (addresses', if is_hang (texts 0) then halts else launches))
        × ((j : ℕ) → addresses' j ≡ (if is_woken texts 0 n j then entry_launch else addresses j))
  unfolding kernel_main
  kernel_main-awakes core_number addresses count enough some_core distinct differ =
      let (addresses', runs, at) =
        wake_loop-prefix mem fuel hang entry_launch parsed n texts named hang_text n 0 n 0 addresses
          (omega arith) distinct (omega arith) in
      let woken : wake_loop mem fuel hang entry_launch parsed 0 n 0 addresses
          ≡ ok (addresses', none) =
        ap (λ (q : ℕ). wake_loop mem fuel hang entry_launch parsed 0 q 0 addresses) {x = n}
          {y = n + 0} (omega arith)
        ∙ runs
        ∙ wake_loop-zero mem fuel hang entry_launch parsed n texts named hang_text n addresses' in
      (
        addresses',
        ground (
          arith,
          count,
          woken,
          own_program-alone mem fuel hang entry_launch parsed n texts named hang_text count
              some_core differ,
        ),
        at,
      )

  -- On core 0, with no more required cores than there are: when the program of a required core `i` is
  -- not "HANG" and is also that of a core `y` between 1 and `i - 1`, the first such pair (no two of
  -- the cores 1 to `i - 1` share a program but "HANG", and none before `y` has that of `i`), then it
  -- is core 0 that goes on to run the program of core `y`: neither core `i` nor any
  -- core behind it is awoken, and core 0 does not run its own program.
  pub kernel_main-joins :
      (core_number i y : ℕ) (addresses : ℕ → ℕ)
      → n ≡ parsed.required_cores
      → n ≤ core_number
      → i < n
      → 1 ≤ y
      → y < i
      → Distinct texts i
      → is_hang (texts i) ≡ false
      → ((k : ℕ) → 1 ≤ k → k < y → same_text (texts k) (texts i) ≡ false)
      → same_text (texts y) (texts i) ≡ true
      → (addresses' : ℕ → ℕ) × (kernel_main mem fuel hang entry_launch parsed 0 core_number
            addresses
          ≡ ok (addresses', joins y))
        × ((j : ℕ) → addresses' j ≡ (if is_woken texts 0 i j then entry_launch else addresses j))
  unfolding kernel_main
  kernel_main-joins core_number i y addresses count enough h pos before distinct runs_one differ
        twin =
      let (addresses', runs, at) =
        wake_loop-prefix mem fuel hang entry_launch parsed n texts named hang_text i 0 i
          (suc (n - suc i)) addresses (omega arith) distinct (omega arith) in
      let found : twin_loop mem fuel hang entry_launch parsed i (i - 1) 1 ≡ ok (some y) =
        ap (λ (q : ℕ). twin_loop mem fuel hang entry_launch parsed i q 1) {x = i - 1}
          {y = (y - 1) + suc (i - 1 - y)} (omega arith)
        ∙ twin_loop-first mem fuel hang entry_launch parsed n texts named hang_text i (y - 1)
            (i - 1 - y) 1 h (omega arith) (λ k a b. differ k a (omega arith))
            (ap (λ (k : ℕ). same_text (texts k) (texts i)) {x = 1 + (y - 1)} {y = y} (omega arith)
              ∙ twin)
        ∙ ap (λ (k : ℕ). ok (some k)) {x = 1 + (y - 1)} {y = y} (omega arith) in
      let woken : wake_loop mem fuel hang entry_launch parsed 0 n 0 addresses
          ≡ ok (addresses', some y) =
        ap (λ (q : ℕ). wake_loop mem fuel hang entry_launch parsed 0 q 0 addresses) {x = n}
          {y = i + suc (n - suc i)} (omega arith)
        ∙ runs
        ∙ wake_loop-twin mem fuel hang entry_launch parsed n texts named hang_text (n - suc i) i
            addresses' (some y) h (ground (arith, runs_one)) found in
      (addresses', ground (arith, count, woken), at)
