-- ===== src/Locks/Spin/Progress.antt =====
-- A core that waits for the lock of kernel/include/multicore/lock.h can always get it.
use raccoon_exok.Common.{ℕ, ◌+◌, ◌%◌, ◌^◌, ◌≡◌, refl, write, arith}
use raccoon_exok.Locks.Spin.{
  SpinLock, spinning, holding, outside, grabs, releases, Steps, none_yet, then_one, fresh, Guarded,
  unheld, held, Steps-Guarded,
}

-- From `s` a path of steps leads to a state in which core `i` holds the lock.
abbrev pub CanHold : ℕ → SpinLock → Type 0
CanHold i s = (t : SpinLock) × Steps s t × (t.stage i ≡ holding)

Guarded-CanHold : (i : ℕ) (s : SpinLock) → Guarded s → s.stage i ≡ spinning → CanHold i s
Guarded-CanHold i s (unheld free never) at = (
  record { lock = 1; stage = write s.stage i holding },
  then_one none_yet (grabs i at free),
  ground arith,
)
Guarded-CanHold i s (held k taken here only) at =
    let released : SpinLock = record {
      lock = (s.lock + 0xffff) % 2 ^ 16;
      stage = write s.stage k outside;
    } in
    (
      record { lock = 1; stage = write released.stage i holding },
      then_one (then_one none_yet (releases k here)) (grabs i (ground arith) (omega arith)),
      ground arith,
    )

-- In every state that any number of cores reach from the initial one, a core that waits in
-- `GRAB_LOCK` has a path of steps to holding the lock: at once when it is free, and else after the
-- core that holds it releases it.
pub spin_lock-CanHold : (s : SpinLock) (i : ℕ) → Steps fresh s → s.stage i ≡ spinning → CanHold i s
spin_lock-CanHold s i path at =
    Guarded-CanHold i s (Steps-Guarded (unheld refl (λ k. ground arith)) path) at
