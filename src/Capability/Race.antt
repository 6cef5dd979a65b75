-- ===== src/Capability/Race.antt =====
-- `get_capability` on several cores at once: nothing guards the entry between the test of
-- `core_number` and the write, so the cores' accesses to the entry that has the name interleave.
use raccoon_exok.Common.{ℕ, ◌≡◌, ◌≢◌, refl, ◌==◌, if◌then◌else◌, arith}
use raccoon_exok.Capability.{no_core}

-- Where a core stands in its call: before the test, between the test and the write, returned.
pub data Pc : Type 0 where
  testing writing : Pc
  returned : ℕ → Pc

pub record Entry : Type 0 where
  pub core_number : ℕ
  pub pc : ℕ → Pc

abbrev pub move : (ℕ → Pc) → ℕ → Pc → ℕ → Pc
move pc i p j = if i == j then p else pc j

-- One access of core `i` to the entry.
pub data Access (s : Entry) : Entry → Type 0 where
  finds_free :
      (i : ℕ)
      → s.pc i ≡ testing
      → s.core_number ≡ no_core
      → Access s (record s { pc = move s.pc i writing })
  finds_held :
      (i : ℕ)
      → s.pc i ≡ testing
      → s.core_number ≢ no_core
      → Access s (record s { pc = move s.pc i (returned 0) })
  writes :
      (i : ℕ)
      → s.pc i ≡ writing
      → Access s (record { core_number = i; pc = move s.pc i (returned 1) })

pub data Reach (s : Entry) : Entry → Type 0 where
  here : Reach s s
  next : {t u : Entry} → Reach s t → Access t u → Reach s u

abbrev pub unheld : Entry
unheld = record { core_number = no_core; pc = λ _. testing }

-- Two different cores that ask for a free capability can both be told that they have it.
pub two_holders :
    (j k : ℕ)
    → j ≢ k
    → (s : Entry) × Reach unheld s
      × (s.pc j ≡ returned 1)
      × (s.pc k ≡ returned 1)
      × (s.core_number ≡ k)
two_holders j k ne = (
  _,
  next
      (next (next (next here (finds_free j refl refl)) (finds_free k (ground arith) refl))
        (writes j (ground arith)))
      (writes k (ground arith)),
  ground arith,
  ground arith,
  refl,
)
