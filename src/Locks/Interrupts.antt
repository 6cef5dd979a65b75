-- ===== src/Locks/Interrupts.antt =====
-- kernel/src/interrupt_lock.c: how often each core has locked its interrupts.
use raccoon_exok.Common.{
  ℕ, suc, ◌+◌, ◌≤◌, ◌≡◌, ◌≢◌, refl, ap, ap₂, ◌∙◌, sym, Bool, true, false, ◌==◌, if◌then◌else◌,
  write, write-restores, arith, Bool-cases, inl, inr,
}
use Prim.Native.Nat.{max}
use raccoon_exok.Common.Run.{Run, ok, halted, ◌>>=◌}
use raccoon_exok.Common.Word.{u8}

-- `lock_level`, and the interrupt flag of each core, which `enable_ints` and `disable_ints` set.
pub record Ints : Type 0 where
  pub lock_level : ℕ → ℕ
  pub enabled : ℕ → Bool

module _ (core : ℕ) where
  -- The failing `ASSERT` prints, disables the interrupts and halts the core.
  unfoldable pub unlock_ints : Ints → Run Ints
  unlock_ints s =
      let level = s.lock_level core in
      let below = u8 (level + 255) in
      if level == 0
      then halted
      else ok (record {
        lock_level = write s.lock_level core below;
        enabled = if below == 0 then write s.enabled core true else s.enabled;
      })

  -- At 255 the failing `ASSERT` prints by way of `lock_ints` itself and never gets to an end.
  unfoldable pub lock_ints : Ints → Run Ints
  lock_ints s =
      let level = s.lock_level core in
      let above = u8 (level + 1) in
      if level == 255
      then halted
      else ok (record {
        lock_level = write s.lock_level core above;
        enabled = if above == 1 then write s.enabled core false else s.enabled;
      })

  unfoldable pub set_ints : ℕ → Ints → Ints
  set_ints int_level s = record {
    lock_level = write s.lock_level core int_level;
    enabled = write s.enabled core (int_level == 0);
  }

-- Code that locks the interrupts, runs more such code, unlocks them, and goes on.
pub data Nested : Type 0 where
  done : Nested
  locked : Nested → Nested → Nested

abbrev pub depth : Nested → ℕ
depth done = 0
depth (locked inner rest) = max (suc (depth inner)) (depth rest)

abbrev pub run : ℕ → Nested → Ints → Run Ints
run core done s = ok s
run core (locked inner rest) s =
    lock_ints core s >>= run core inner >>= unlock_ints core >>= run core rest

abbrev raised : ℕ → Ints → Ints
raised core s = record {
  lock_level = write s.lock_level core (s.lock_level core + 1);
  enabled = if s.lock_level core == 0 then write s.enabled core false else s.enabled;
}

lock_ints-raised :
    (core : ℕ) (s : Ints) → s.lock_level core + 1 ≤ 255 → lock_ints core s ≡ ok (raised core s)
unfolding lock_ints
lock_ints-raised core s h = simp (not_full, fits, first) refl
  where
    not_full : (s.lock_level core == 255) ≡ false
    not_full = ground arith

    fits : u8 (s.lock_level core + 1) ≡ s.lock_level core + 1
    fits = omega arith

    first : (s.lock_level core + 1 == 1) ≡ (s.lock_level core == 0)
    first = ground arith

unlock_ints-raised :
    (core : ℕ) (s : Ints)
    → s.lock_level core + 1 ≤ 255
    → s.enabled core ≡ (s.lock_level core == 0)
    → unlock_ints core (raised core s) ≡ ok s
unfolding unlock_ints
unlock_ints-raised core s h c = elim (Bool-cases (s.lock_level core == 0)) [
  | inl outer ↦
      simp (self, positive, back, outer)
        (ap₂ (λ levels flags. ok (record { lock_level = levels; enabled = flags })) levels_back
          (write-restores s.enabled (write s.enabled core false) core true (sym outer ∙ sym c)
            (λ j ne. ground arith)))
  | inr deep ↦
      simp (self, positive, back, deep)
        (ap (λ levels. ok (record s { lock_level = levels })) levels_back)
]
  where
    levels_back :
        write (write s.lock_level core (s.lock_level core + 1)) core (s.lock_level core)
        ≡ s.lock_level
    levels_back =
        write-restores s.lock_level (write s.lock_level core (s.lock_level core + 1)) core
          (s.lock_level core) refl (λ j ne. ground arith)

    self : (core == core) ≡ true
    self = ground arith

    positive : (s.lock_level core + 1 == 0) ≡ false
    positive = ground arith

    back : u8 (s.lock_level core + 1 + 255) ≡ s.lock_level core
    back = omega arith

-- Code that locks and unlocks in nested pairs, to a depth that keeps the level of its core at 255
-- or less, on a core whose interrupts are enabled just when its level is 0: no assertion fails, and
-- the levels and interrupt flags of all cores are at the end as they were.
pub run-Nested :
    (core : ℕ) (p : Nested) (s : Ints)
    → s.enabled core ≡ (s.lock_level core == 0)
    → s.lock_level core + depth p ≤ 255
    → run core p s ≡ ok s
run-Nested core done s c h = refl
run-Nested core (locked inner rest) s c h =
    simp
      (
        lock_ints-raised core s (omega arith),
        run-Nested core inner (raised core s) (ground arith) (ground arith),
        unlock_ints-raised core s (omega arith) c,
      )
      (run-Nested core rest s c (omega arith))

-- Between a `lock_ints` that succeeds and its `unlock_ints` the interrupts of the core are disabled
-- and its level is not 0; the other cores keep their level and their flag.
pub lock_ints-disables :
    (core : ℕ) (s : Ints)
    → s.enabled core ≡ (s.lock_level core == 0)
    → s.lock_level core ≤ 254
    → (t : Ints) × (lock_ints core s ≡ ok t)
      × (t.enabled core ≡ false)
      × (t.lock_level core ≡ s.lock_level core + 1)
      × ((j : ℕ) → j ≢ core → (t.enabled j ≡ s.enabled j) × (t.lock_level j ≡ s.lock_level j))
lock_ints-disables core s c h = (
  raised core s,
  lock_ints-raised core s (omega arith),
  ground arith,
  ground arith,
  λ j ne. ground arith,
)
