-- ===== src/Parse/Entries.antt =====
-- The entries of the init file of kernel/src/parse_init.c.
use raccoon_exok.Common.{
  ℕ, zero, suc, ◌+◌, ◌-◌, ◌*◌, ◌%◌, ◌^◌, ◌≤◌, ◌<◌, ◌≡◌, ap, ap₂, ◌∙◌, ltb, if◌then◌else◌, List, [],
  ◌∷◌, length, set, none, some, true, false, arith,
}
use raccoon_exok.Common.Run.{Run, ok, fault, ◌>>=◌}
use raccoon_exok.Memory.{Memory, load, put, store}
use raccoon_exok.Numbers.{atou, between}
use raccoon_exok.Numbers.Read.{decimal_from, AllDecimal, decimal_from-mod}
use raccoon_exok.Common.Limits.{max_core}
use raccoon_exok.Parse.{Init, store_program, get_next_line, parse_entry}

-- At `p` stand the bytes of `s`, and behind them `d`.
abbrev pub TextAt : Memory → (p : ℕ) → List ℕ → (d : ℕ) → Type 0
TextAt mem p [] d = mem p ≡ some d
TextAt mem p (c ∷ s) d = (mem p ≡ some c) × TextAt mem (p + 1) s d

TextAt-end :
    (mem : Memory) (p : ℕ) (s : List ℕ) (d : ℕ) → TextAt mem p s d → mem (p + length s) ≡ some d
TextAt-end mem p [] d at = ap mem (omega arith) ∙ at
TextAt-end mem p (c ∷ s) d (here, at) = ap mem (omega arith) ∙ TextAt-end mem (p + 1) s d at

module _ (mem : Memory) (d : ℕ) (stop : between 48 57 d ≡ false) where
  -- Digits behind which another character stands.
  atou-digits :
      (fuel acc p : ℕ) (s : List ℕ)
      → TextAt mem p s d
      → AllDecimal s
      → length s < fuel
      → acc < 2 ^ 32
      → atou mem fuel acc p ≡ ok (decimal_from acc s % 2 ^ 32, p + length s)
  unfolding atou load
  atou-digits zero acc p s at all h small = absurd (omega arith)
  atou-digits (suc fuel) acc p [] at all h small = ground arith
  atou-digits (suc fuel) acc p (c ∷ s) (here, rest) (digit, all) h small =
      let acc' : ℕ = (acc * 10 + c + (2 ^ 32 - 48)) % 2 ^ 32 in
      let next : atou mem fuel acc' (p + 1)
          ≡ ok (decimal_from (acc * 10 + (c - 48)) s % 2 ^ 32, p + suc (length s)) =
        atou-digits fuel acc' (p + 1) s rest all (omega arith) (omega arith)
        ∙ ap₂ (λ v q. ok (v, q)) (decimal_from-mod acc' (acc * 10 + (c - 48)) s (ground arith))
            (omega arith) in
      ground (arith, next)

  put-end : (p : ℕ) → mem p ≡ some d → put mem p 0 ≡ ok (store mem p 0)
  unfolding put
  put-end p e = ap (λ o. elim o [ none ↦ fault | some b ↦ ok (store mem p 0) ]) e

  -- A line of decimal digits, behind which another character stands, as `parse_init` handles it: for
  -- a core number below 32 the program of that core is the text behind that character, the
  -- character becomes a 0, and the next line is sought behind it; for a larger number the write
  -- goes outside of the array.
  pub parse_entry-program :
      (end fuel ptr : ℕ) (s : List ℕ) (init : Init)
      → (let p = ptr + length s in
          let index = decimal_from 0 s % 2 ^ 32 in
          TextAt mem ptr s d
          → AllDecimal s
          → length s < fuel
          → (index < max_core
              → parse_entry end fuel ptr init mem ≡ (
                  get_next_line (end - (p + 1)) (p + 1) (store mem p 0) >>= λ next. ok (
                    next,
                    record init { programs = set init.programs index (p + 1) },
                    store mem p 0,
                  )))
            × (max_core ≤ index → parse_entry end fuel ptr init mem ≡ fault))
  unfolding parse_entry
  parse_entry-program end fuel ptr s init at all enough =
      let p : ℕ = ptr + length s in
      let index : ℕ = decimal_from 0 s % 2 ^ 32 in
      let rest : Init → Run (ℕ × Init × Memory) = λ init. put mem p 0 >>= λ mem'.
      get_next_line (end - (p + 1)) (p + 1) mem' >>= λ next. ok (next, init, mem') in
      let program : Init = record init { programs = set init.programs index (p + 1) } in
      let start : parse_entry end fuel ptr init mem ≡ (store_program index (p + 1) init >>= rest) =
        ap
          (λ r. r >>= λ (index, p). store_program index (p + 1) init >>= λ init.
            put mem p 0 >>= λ mem'.
            get_next_line (end - (p + 1)) (p + 1) mem' >>= λ next. ok (next, init, mem'))
          (atou-digits fuel 0 ptr s at all enough (omega arith)) in
      (
        λ small.
            start
            ∙ ap (λ b. (if b then ok program else fault) >>= rest) {x = ltb index max_core}
                {y = true} (ground arith)
            ∙ ap
                (λ r. r >>= λ mem'.
                  get_next_line (end - (p + 1)) (p + 1) mem' >>= λ next. ok (next, program, mem'))
                (put-end p (TextAt-end mem ptr s d at)),
        λ large.
            start
            ∙ ap (λ b. (if b then ok program else fault) >>= rest) {x = ltb index max_core}
                {y = false} (ground arith),
      )
