-- ===== src/Locks/Tests.antt =====
-- Two cores at a spin lock, and nested interrupt locks at level 253.
use raccoon_exok.Common.{ℕ, ◌≡◌, refl, ◌==◌, if◌then◌else◌, false, arith}
use raccoon_exok.Common.Run.{ok}
use raccoon_exok.Locks.Spin.{
  SpinLock, Steps, fresh, none_yet, then_one, waits, grabs, holding, spinning, outside,
  spin_lock-exclusive,
}
use raccoon_exok.Locks.Spin.Progress.{CanHold, spin_lock-CanHold}
use raccoon_exok.Locks.Interrupts.{Ints, done, locked, run, run-Nested}

-- Core 1 holds the lock.
abbrev grabbed : SpinLock
grabbed = record {
  lock = 1;
  stage = λ j. if 1 == j then holding else if 1 == j then spinning else outside;
}

grabbed-Steps : Steps fresh grabbed
grabbed-Steps = then_one (then_one none_yet (waits 1 refl)) (grabs 1 refl refl)

spin_lock-exclusive_example : ◌≡◌ {A = ℕ} 1 1
spin_lock-exclusive_example = spin_lock-exclusive grabbed 1 1 grabbed-Steps refl refl

-- Core 2 waits, and its compare-and-swap fails.
abbrev contended : SpinLock
contended = record { lock = 1; stage = λ j. if 2 == j then spinning else grabbed.stage j }

spin_lock-CanHold_example : CanHold 2 contended
spin_lock-CanHold_example =
    spin_lock-CanHold contended 2 (then_one grabbed-Steps (waits 2 refl)) refl

abbrev deep : Ints
deep = record { lock_level = λ _. 253; enabled = λ _. false }

run-Nested_example : run 3 (locked (locked done done) (locked done done)) deep ≡ ok deep
run-Nested_example =
    run-Nested 3 (locked (locked done done) (locked done done)) deep refl (omega arith)
