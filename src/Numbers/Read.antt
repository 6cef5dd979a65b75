-- ===== src/Numbers/Read.antt =====
-- What `atou` and `strtoul` read: the value of the digits of a text.
use raccoon_exok.Common.{
  ℕ, zero, suc, ◌+◌, ◌-◌, ◌*◌, ◌%◌, ◌^◌, ◌<◌, ◌≡◌, ap₂, subst, ◌∙◌, true, Option, none, some, List,
  [], ◌∷◌, length, arith, Option-cases, inl, inr,
}
use raccoon_exok.Common.Run.{ok}
use raccoon_exok.Memory.{Memory, load, StrAt}
use raccoon_exok.Numbers.{between, hex_digit, atou, strtoul}

-- The value of a decimal text behind the number `acc`.
abbrev pub decimal_from : ℕ → List ℕ → ℕ
decimal_from acc [] = acc
decimal_from acc (c ∷ s) = decimal_from (acc * 10 + (c - 48)) s

abbrev pub AllDecimal : List ℕ → Type 0
AllDecimal [] = Unit
AllDecimal (c ∷ s) = (between 48 57 c ≡ true) × AllDecimal s

-- The value of a hexadecimal text behind `acc`, if all its characters are digits.
abbrev pub hex_from : ℕ → List ℕ → Option ℕ
hex_from acc [] = some acc
hex_from acc (c ∷ s) = elim (hex_digit c) [ none ↦ none | some d ↦ hex_from (acc * 16 + d) s ]

pub decimal_from-mod :
    (a b : ℕ) (s : List ℕ)
    → a % 2 ^ 32 ≡ b % 2 ^ 32
    → decimal_from a s % 2 ^ 32 ≡ decimal_from b s % 2 ^ 32
decimal_from-mod a b [] e = e
decimal_from-mod a b (c ∷ s) e =
    decimal_from-mod (a * 10 + (c - 48)) (b * 10 + (c - 48)) s (omega arith)

module _ (mem : Memory) where
  -- On a text of decimal digits, with fuel above its length, `atou` returns the value of the text
  -- behind the start value, modulo `2 ^ 32`, and the place behind the digits.
  pub atou-decimal :
      (fuel acc p : ℕ) (s : List ℕ)
      → StrAt mem p s
      → AllDecimal s
      → length s < fuel
      → acc < 2 ^ 32
      → atou mem fuel acc p ≡ ok (decimal_from acc s % 2 ^ 32, p + length s)
  unfolding atou load
  atou-decimal zero acc p s at all h small = absurd (omega arith)
  atou-decimal (suc fuel) acc p [] at all h small = ground arith
  atou-decimal (suc fuel) acc p (c ∷ s) (here, nz, lt, rest) (digit, all) h small =
      let acc' = (acc * 10 + c + (2 ^ 32 - 48)) % 2 ^ 32 in
      let next : atou mem fuel acc' (p + 1)
          ≡ ok (decimal_from (acc * 10 + (c - 48)) s % 2 ^ 32, p + suc (length s)) =
        atou-decimal fuel acc' (p + 1) s rest all (omega arith) (omega arith)
        ∙ ap₂ (λ v q. ok (v, q)) (decimal_from-mod acc' (acc * 10 + (c - 48)) s (ground arith))
            (omega arith) in
      ground (arith, next)

  strtoul-hex_at :
      (fuel acc p : ℕ) (s : List ℕ) (v : ℕ)
      → StrAt mem p s
      → hex_from acc s ≡ some v
      → length s < fuel
      → strtoul mem 16 fuel (acc % 2 ^ 64) p ≡ ok (v % 2 ^ 64, p + length s)
  unfolding strtoul load
  strtoul-hex_at zero acc p s v at e h = absurd (omega arith)
  strtoul-hex_at (suc fuel) acc p [] v at e h = ground arith
  strtoul-hex_at (suc fuel) acc p (c ∷ s) v (here, nz, lt, rest) e h =
      let next : (d : ℕ)
          → hex_digit c ≡ some d
          → strtoul mem 16 fuel ((acc % 2 ^ 64 * 16 % 2 ^ 64 + d) % 2 ^ 64) (p + 1)
            ≡ ok (v % 2 ^ 64, p + 1 + length s) =
        λ d found.
          subst (λ (a : ℕ). strtoul mem 16 fuel a (p + 1) ≡ ok (v % 2 ^ 64, p + 1 + length s))
            (omega arith)
            (strtoul-hex_at fuel (acc * 16 + d) (p + 1) s v rest (ground arith) (omega arith)) in
      elim (Option-cases (hex_digit c)) [
        | inl stop ↦ ground arith
        | inr (d, found) ↦ ground (arith, next d found)
      ]

  -- On a text of hexadecimal digits of either case, with fuel above its length, `strtoul` with base
  -- 16 returns its value modulo `2 ^ 64` and the place behind the digits.
  pub strtoul-hex :
      (fuel p : ℕ) (s : List ℕ) (v : ℕ)
      → StrAt mem p s
      → hex_from 0 s ≡ some v
      → length s < fuel
      → strtoul mem 16 fuel 0 p ≡ ok (v % 2 ^ 64, p + length s)
  strtoul-hex fuel p s v at e h = strtoul-hex_at fuel 0 p s v at e h
