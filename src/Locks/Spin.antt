-- ===== src/Locks/Spin.antt =====
-- kernel/include/multicore/lock.h: `GRAB_LOCK` and `RELEASE_LOCK` by several cores on one lock.
pub mod Progress
use raccoon_exok.Common.{ℕ, ◌+◌, ◌≡◌, ◌≢◌, refl, write, arith, sym, ◌∙◌}
use raccoon_exok.Common.Word.{u16}

-- A core spins in `WAIT_LOCK`, or is between `GRAB_LOCK` and `RELEASE_LOCK`, or neither.
pub data Stage : Type 0 where
  outside spinning holding : Stage

-- The 16-bit `lock`, and where each core is.
pub record SpinLock : Type 0 where
  pub lock : ℕ
  pub stage : ℕ → Stage

-- One step of core `i`: it starts to wait, its compare-and-swap of 0 by 1 succeeds or fails, or it
-- decrements the lock.
pub data Step (s : SpinLock) : SpinLock → Type 0 where
  waits : (i : ℕ) → s.stage i ≡ outside → Step s (record s { stage = write s.stage i spinning })
  grabs :
      (i : ℕ)
      → s.stage i ≡ spinning
      → s.lock ≡ 0
      → Step s (record { lock = 1; stage = write s.stage i holding })
  spins : (i : ℕ) → s.stage i ≡ spinning → s.lock ≢ 0 → Step s s
  releases :
      (i : ℕ)
      → s.stage i ≡ holding
      → Step s (record { lock = u16 (s.lock + 0xffff); stage = write s.stage i outside })

pub data Steps (s : SpinLock) : SpinLock → Type 0 where
  none_yet : Steps s s
  then_one : {t u : SpinLock} → Steps s t → Step t u → Steps s u

-- The static initial value: zero, with no core inside.
abbrev pub fresh : SpinLock
fresh = record { lock = 0; stage = λ _. outside }

-- The lock is 0 and no core holds it, or 1 and core `i` alone does.
pub data Guarded (s : SpinLock) : Type 0 where
  unheld : s.lock ≡ 0 → ((j : ℕ) → s.stage j ≢ holding) → Guarded s
  held :
      (i : ℕ)
      → s.lock ≡ 1
      → s.stage i ≡ holding
      → ((j : ℕ) → s.stage j ≡ holding → i ≡ j)
      → Guarded s

Step-Guarded : {s t : SpinLock} → Guarded s → Step s t → Guarded t
Step-Guarded (unheld e h) (waits i at) = unheld e (λ j. ground (arith, h j))
Step-Guarded (held i e here only) (waits j at) =
    held i e (ground arith) (λ k. ground (arith, only k))
Step-Guarded (unheld e h) (grabs i at free) = held i refl (ground arith) (λ j. ground (arith, h j))
Step-Guarded (held i e here only) (grabs j at free) = absurd (omega arith)
Step-Guarded g (spins i at taken) = g
Step-Guarded (unheld e h) (releases i at) = absurd (h i at)
Step-Guarded (held i e here only) (releases j at) =
    unheld (omega arith) (λ k. ground (arith, only k, only j))

pub Steps-Guarded : {s t : SpinLock} → Guarded s → Steps s t → Guarded t
Steps-Guarded g none_yet = g
Steps-Guarded g (then_one path step) = Step-Guarded (Steps-Guarded g path) step

-- At most one core at a time is between `GRAB_LOCK` and `RELEASE_LOCK`, in every state that any
-- number of cores reach from the initial one.
pub spin_lock-exclusive :
    (s : SpinLock) (i j : ℕ) → Steps fresh s → s.stage i ≡ holding → s.stage j ≡ holding → i ≡ j
spin_lock-exclusive s i j path h g = elim (Steps-Guarded (unheld refl (λ k. ground arith)) path) [
  | unheld e never ↦ absurd (never i h)
  | held k e here only ↦ sym (only i h) ∙ only j g
]

-- A holder that returns without `RELEASE_LOCK` blocks all others: while it does not release, the
-- lock stays at 1, so that every compare-and-swap fails.
pub data StepBut (k : ℕ) (s : SpinLock) : SpinLock → Type 0 where
  by_other : {t : SpinLock} → Step s t → (t.stage k ≡ holding) → StepBut k s t

pub data StepsBut (k : ℕ) (s : SpinLock) : SpinLock → Type 0 where
  at_once : StepsBut k s s
  and_then : {t u : SpinLock} → StepsBut k s t → StepBut k t u → StepsBut k s u

kept_path :
    (k : ℕ) {r s t : SpinLock}
    → Steps r s
    → StepsBut k s t
    → s.stage k ≡ holding
    → Steps r t × (t.stage k ≡ holding)
kept_path k path at_once h = (path, h)
kept_path k path (and_then first (by_other step kept)) h =
    let (before, _) = kept_path k path first h in (then_one before step, kept)

-- While core `k` holds the lock and does not release it, no other core gets it.
pub spin_lock-blocked :
    (s t : SpinLock) (k i : ℕ)
    → Steps fresh s
    → s.stage k ≡ holding
    → StepsBut k s t
    → i ≢ k
    → t.stage i ≢ holding
spin_lock-blocked s t k i path h more ne got =
    let (whole, still) = kept_path k path more h in ne (spin_lock-exclusive t i k whole got still)
