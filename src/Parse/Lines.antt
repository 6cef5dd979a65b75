-- ===== src/Parse/Lines.antt =====
-- The lines of a text file, as kernel/src/parse_init.c and kernel/src/parse_capability_map.c make
-- them.
use raccoon_exok.Common.{
  ℕ, zero, suc, ◌+◌, ◌≤◌, ◌<◌, ◌≡◌, refl, ap, ◌∙◌, ◌==◌, if◌then◌else◌, Bool-cases, inl, inr,
  Option, none, some, true, false, arith,
}
use raccoon_exok.Common.Run.{ok, fault, ◌>>=◌}
use raccoon_exok.Memory.{Memory, load, put, store}
use raccoon_exok.Parse.{to_lines}

-- The bytes of the file.
abbrev pub Readable : Memory → (ptr rounds : ℕ) → Type 0
Readable mem ptr rounds = (i : ℕ) → ptr ≤ i → i < ptr + rounds → (c : ℕ) × (mem i ≡ some c)

-- What a byte becomes.
abbrev pub ended : Option ℕ → Option ℕ
ended none = none
ended (some c) = if c == 10 then some 0 else some c

to_lines-newline :
    (rounds ptr c : ℕ) (mem : Memory)
    → mem ptr ≡ some c
    → (c == 10) ≡ true
    → to_lines (suc rounds) ptr mem ≡ to_lines rounds (ptr + 1) (store mem ptr 0)
unfolding to_lines load put
to_lines-newline rounds ptr c mem e newline =
    ap
      (λ o. elim o [ none ↦ fault | some b ↦ ok b ] >>= λ c.
        if c == 10
        then (elim o [ none ↦ fault | some b ↦ ok (store mem ptr 0) ] >>= to_lines rounds (ptr + 1))
        else to_lines rounds (ptr + 1) mem)
      e
    ∙ ap
        (λ b.
          if b then to_lines rounds (ptr + 1) (store mem ptr 0) else to_lines rounds (ptr + 1) mem)
        newline

to_lines-other :
    (rounds ptr c : ℕ) (mem : Memory)
    → mem ptr ≡ some c
    → (c == 10) ≡ false
    → to_lines (suc rounds) ptr mem ≡ to_lines rounds (ptr + 1) mem
unfolding to_lines load put
to_lines-other rounds ptr c mem e other =
    ap
      (λ o. elim o [ none ↦ fault | some b ↦ ok b ] >>= λ c.
        if c == 10
        then (elim o [ none ↦ fault | some b ↦ ok (store mem ptr 0) ] >>= to_lines rounds (ptr + 1))
        else to_lines rounds (ptr + 1) mem)
      e
    ∙ ap
        (λ b.
          if b then to_lines rounds (ptr + 1) (store mem ptr 0) else to_lines rounds (ptr + 1) mem)
        other

-- On a readable file `to_lines` ends without a fault; each new line of the file is a 0 behind it, and
-- every other byte, in the file and outside, is unchanged.
pub to_lines-ends :
    (rounds ptr : ℕ) (mem : Memory)
    → Readable mem ptr rounds
    → (mem' : Memory) × (to_lines rounds ptr mem ≡ ok mem')
      × ((i : ℕ) → ptr ≤ i → i < ptr + rounds → mem' i ≡ ended (mem i))
      × ((i : ℕ) → i < ptr → mem' i ≡ mem i)
      × ((i : ℕ) → ptr + rounds ≤ i → mem' i ≡ mem i)
unfolding to_lines
to_lines-ends zero ptr mem readable =
    (mem, refl, λ i h g. absurd (omega arith), λ i h. refl, λ i h. refl)
to_lines-ends (suc rounds) ptr mem readable =
    let (c, e) = readable ptr (omega arith) (omega arith) in
    elim (Bool-cases (c == 10)) [
      | inl newline ↦
          let (mem', runs, inside, below, above) =
            to_lines-ends rounds (ptr + 1) (store mem ptr 0) (λ i h g.
              let (d, f) = readable i (omega arith) (omega arith) in (d, ground (arith, f))) in
          (
            mem',
            to_lines-newline rounds ptr c mem e newline ∙ runs,
            λ i h g. elim (Bool-cases (ptr == i)) [
              | inl here ↦ below i (ground arith) ∙ ground (arith, e, newline)
              | inr on ↦ inside i (ground arith) (omega arith) ∙ ground (arith, on)
            ],
            λ i h. below i (omega arith) ∙ ground arith,
            λ i h. above i (omega arith) ∙ ground arith,
          )
      | inr other ↦
          let (mem', runs, inside, below, above) =
            to_lines-ends rounds (ptr + 1) mem (λ i h g. readable i (omega arith) (omega arith)) in
          (
            mem',
            to_lines-other rounds ptr c mem e other ∙ runs,
            λ i h g. elim (Bool-cases (ptr == i)) [
              | inl here ↦ below i (ground arith) ∙ kept i c (ap mem (ground arith) ∙ e) other
              | inr on ↦ inside i (ground arith) (omega arith)
            ],
            λ i h. below i (omega arith),
            λ i h. above i (omega arith),
          )
    ]
  where
    kept : (i c : ℕ) → mem i ≡ some c → (c == 10) ≡ false → mem i ≡ ended (mem i)
    kept i c e other = ground (arith, e, other)
