-- ===== src/Memory.antt =====
-- Memory as the kernel's C code reads it: bytes at addresses, some of them unmapped.
pub mod Blocks
pub mod Text
mod Tests
use raccoon_exok.Common.{
  ℕ, zero, suc, ◌+◌, ◌≡◌, ◌≢◌, ◌<◌, Option, none, some, List, [], ◌∷◌, ◌==◌, if◌then◌else◌, arith,
}
use raccoon_exok.Common.Run.{Run, ok, fault}

abbrev pub Memory : Type 0
Memory = ℕ → Option ℕ

unfoldable pub load : Memory → ℕ → Run ℕ
load mem p = elim (mem p) [ none ↦ fault | some b ↦ ok b ]

abbrev pub store : Memory → ℕ → ℕ → Memory
store mem p b q = if p == q then some b else mem q

-- A write through a pointer.
unfoldable pub put : Memory → ℕ → ℕ → Run Memory
put mem p b = elim (mem p) [ none ↦ fault | some old ↦ ok (store mem p b) ]

-- At `p` stand the bytes of `s`, none of them 0, and then a 0.
abbrev pub StrAt : Memory → ℕ → List ℕ → Type 0
StrAt mem p [] = mem p ≡ some 0
StrAt mem p (c ∷ s) = (mem p ≡ some c) × (c ≢ 0) × (c < 256) × StrAt mem (p + 1) s

-- A write below a text leaves it.
pub StrAt-store :
    (mem : Memory) (q b p : ℕ) (s : List ℕ) → q < p → StrAt mem p s → StrAt (store mem q b) p s
StrAt-store mem q b p [] h at = ground arith
StrAt-store mem q b p (c ∷ s) h (here, nz, small, rest) =
    (ground arith, nz, small, StrAt-store mem q b (p + 1) s (omega arith) rest)
