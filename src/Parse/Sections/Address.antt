-- ===== src/Parse/Sections/Address.antt =====
-- The address lines of kernel/src/parse_capability_map.c.
use raccoon_exok.Common.{
  ℕ, zero, suc, ◌+◌, ◌%◌, ◌^◌, ◌<◌, ◌≡◌, ◌≢◌, refl, true, false, some, List, [], ◌∷◌, ◌++◌, length,
  arith, set, get_elem?, length-append, replicate, Option-cases, inl, inr, get_elem?-set-some,
  set-set,
}
use raccoon_exok.Common.Run.{ok}
use raccoon_exok.Memory.{Memory, StrAt}
use raccoon_exok.Numbers.{hex_digit}
use raccoon_exok.Numbers.Read.{hex_from, strtoul-hex}
use raccoon_exok.Capability.{Capability}
use raccoon_exok.Parse.Sections.{is_hex, is_separator, modify, parse_address}
use raccoon_exok.Parse.Sections.Text.{
  is_prefix, AllTrue, Stops, StrAt-suffix, skip_while-Stops, strtoul-Stops,
}

pub modify-some :
    (caps : List Capability) (i : ℕ) (f : Capability → Capability) (c : Capability)
    → get_elem? caps i ≡ some c
    → modify caps i f ≡ ok (set caps i (f c))
modify-some caps i f c h = ground (arith, h)

hex_from-is_hex : (c : ℕ) (s : List ℕ) (u : ℕ) → hex_from 0 (c ∷ s) ≡ some u → is_hex c ≡ true
hex_from-is_hex c s u e = elim (Option-cases (hex_digit c)) [
  | inl stop ↦ ground (arith, e, stop)
  | inr (d, found) ↦ ground (arith, found)
]

pub Stops-between :
    (between second : List ℕ)
    → AllTrue is_separator between
    → between ≢ []
    → Stops is_hex (between ++ second)
Stops-between [] second seps some_sep = absurd (some_sep refl)
Stops-between (c ∷ between) second (sep, seps) some_sep = ground (arith, sep)

pub Stops-second :
    (second : List ℕ) (u : ℕ) → second ≢ [] → hex_from 0 second ≡ some u → Stops is_separator second
Stops-second [] u some_digit e = absurd (some_digit refl)
Stops-second (c ∷ second) u some_digit e = ground (arith, hex_from-is_hex c second u e)

-- Neither the separators nor the digits behind them spell "    IOperms ".
pub no_ioperms :
    (k : ℕ) (rest between second : List ℕ) (u : ℕ)
    → AllTrue is_separator between
    → second ≢ []
    → hex_from 0 second ≡ some u
    → is_prefix (replicate k 32 ++ (73 ∷ rest)) (between ++ second) ≡ false
no_ioperms zero rest [] [] u seps some_digit e = absurd (some_digit refl)
no_ioperms (suc k) rest [] [] u seps some_digit e = absurd (some_digit refl)
no_ioperms zero rest [] (c ∷ second) u seps some_digit e =
    ground (arith, hex_from-is_hex c second u e)
no_ioperms (suc k) rest [] (c ∷ second) u seps some_digit e =
    ground (arith, hex_from-is_hex c second u e)
no_ioperms zero rest (c ∷ between) second u (sep, seps) some_digit e = ground (arith, sep)
no_ioperms (suc k) rest (c ∷ between) second u (sep, seps) some_digit e =
    ground (arith, no_ioperms k rest between second u seps some_digit e)

module _ (mem : Memory) (fuel i : ℕ) where
  pub parse_address-reads :
      (p : ℕ) (first between second : List ℕ) (v u : ℕ) (caps : List Capability) (c : Capability)
      → StrAt mem p (first ++ (between ++ second))
      → hex_from 0 first ≡ some v
      → hex_from 0 second ≡ some u
      → AllTrue is_separator between
      → Stops is_hex (between ++ second)
      → Stops is_separator second
      → length (first ++ (between ++ second)) < fuel
      → get_elem? caps i ≡ some c
      → parse_address mem fuel i p caps
        ≡ ok (
          p + length first,
          set caps i (record c { begin_addr = v % 2 ^ 64; end_addr = u % 2 ^ 64 }),
        )
  unfolding parse_address
  parse_address-reads p first between second v u caps c at hv hu seps stops stops' h found =
      let c1 : Capability = record c { begin_addr = v % 2 ^ 64 } in
      let at_between = StrAt-suffix mem p first (between ++ second) at in
      let at_second = StrAt-suffix mem (p + length first) between second at_between in
      let long1 : length first < fuel = omega (arith, length-append first (between ++ second)) in
      let long2 : length between < fuel =
        omega (arith, length-append first (between ++ second), length-append between second) in
      let long3 : length second < fuel =
        omega (arith, length-append first (between ++ second), length-append between second) in
      let c2 : Capability = record c { begin_addr = v % 2 ^ 64; end_addr = u % 2 ^ 64 } in
      let number1 = strtoul-Stops mem fuel p first (between ++ second) v at stops hv long1 in
      let set1 = modify-some caps i (λ c. record c { begin_addr = v % 2 ^ 64 }) c found in
      let hex1 =
        skip_while-Stops mem is_hex fuel (p + length first) [] (between ++ second) at_between tt
          stops (omega arith) in
      let seps1 =
        skip_while-Stops mem is_separator fuel (p + length first) between second at_between seps
          stops' long2 in
      let number2 =
        strtoul-hex mem fuel (p + length first + length between) second u at_second hu long3 in
      let set2 =
        modify-some (set caps i c1) i (λ c. record c { end_addr = u % 2 ^ 64 }) c1
          (get_elem?-set-some caps i c c1 found) in
      ground (arith, number1, set1, hex1, seps1, number2, set2, set-set caps i c1 c2)
