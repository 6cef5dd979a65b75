-- ===== src/Parse/Sections/Text.antt =====
-- What the scans of kernel/src/parse_capability_map.c find in a text.
use raccoon_exok.Common.{
  ℕ, zero, suc, ◌+◌, ◌*◌, ◌%◌, ◌^◌, ◌<◌, ◌≡◌, refl, subst, Bool, not, true, false, ◌&&◌, none, some,
  List, [], ◌∷◌, ◌++◌, length, ◌==◌, arith, Option-cases, inl, inr,
}
use raccoon_exok.Common.Run.{ok}
use raccoon_exok.Memory.{Memory, load, StrAt}
use raccoon_exok.Strings.{strlen, strncmp}
use raccoon_exok.Numbers.{hex_digit, strtoul}
use raccoon_exok.Numbers.Read.{hex_from}
use raccoon_exok.Parse.Sections.{starts_with, skip_while, is_hex}

abbrev pub is_prefix : List ℕ → List ℕ → Bool
is_prefix [] s = true
is_prefix (c ∷ t) [] = false
is_prefix (c ∷ t) (b ∷ s) = b == c && is_prefix t s

abbrev pub all_nonzero : List ℕ → Bool
all_nonzero [] = true
all_nonzero (c ∷ t) = not (c == 0) && all_nonzero t

abbrev pub AllTrue : (ℕ → Bool) → List ℕ → Type 0
AllTrue test [] = Unit
AllTrue test (c ∷ t) = (test c ≡ true) × AllTrue test t

-- The text starts with a character that fails the test, its end counted as 0.
abbrev pub Stops : (ℕ → Bool) → List ℕ → Type 0
Stops test [] = test 0 ≡ false
Stops test (c ∷ t) = test c ≡ false

is_hex-hex_digit : (c : ℕ) → is_hex c ≡ false → hex_digit c ≡ none
is_hex-hex_digit c h = ground arith

module _ (mem : Memory) where
  pub StrAt-suffix : (p : ℕ) (s t : List ℕ) → StrAt mem p (s ++ t) → StrAt mem (p + length s) t
  StrAt-suffix p [] t at = subst (λ (q : ℕ). StrAt mem q t) (omega arith) at
  StrAt-suffix p (c ∷ s) t (here, nz, small, at) =
      subst (λ (q : ℕ). StrAt mem q t) (omega arith) (StrAt-suffix (p + 1) s t at)

  pub starts_with-is_prefix :
      (p : ℕ) (s t : List ℕ)
      → StrAt mem p s
      → all_nonzero t ≡ true
      → starts_with mem p t ≡ ok (is_prefix t s)
  unfolding starts_with load
  starts_with-is_prefix p s [] at nonzero = refl
  starts_with-is_prefix p [] (d ∷ t) at nonzero = ground (arith, at)
  starts_with-is_prefix p (c ∷ s) (d ∷ t) (here, cz, small, at) nonzero =
      ground (arith, here, starts_with-is_prefix (p + 1) s t at (ground arith))

  -- With `i` characters read already.
  pub strlen-length :
      (fuel p i : ℕ) (s : List ℕ)
      → StrAt mem (p + i) s
      → length s < fuel
      → strlen mem fuel p i ≡ ok (i + length s)
  unfolding strlen load
  strlen-length zero p i s at h = absurd (omega arith)
  strlen-length (suc fuel) p i [] at h = ground (arith, at)
  strlen-length (suc fuel) p i (c ∷ s) (here, nz, small, at) h = ground (
    arith,
    here,
    strlen-length fuel p (i + 1) s (subst (λ (q : ℕ). StrAt mem q s) (omega arith) at)
        (omega arith),
  )

  pub strncmp-append :
      (p q : ℕ) (s t : List ℕ)
      → StrAt mem p (s ++ t)
      → StrAt mem q s
      → strncmp mem p q (length s) ≡ ok 0
  unfolding strncmp load
  strncmp-append p q [] t at at' = refl
  strncmp-append p q (c ∷ s) t (here, nz, small, at) (here', nz', small', at') =
      ground (arith, here, here', strncmp-append (p + 1) (q + 1) s t at at')

  pub skip_while-Stops :
      (test : ℕ → Bool) (fuel p : ℕ) (s t : List ℕ)
      → StrAt mem p (s ++ t)
      → AllTrue test s
      → Stops test t
      → length s < fuel
      → skip_while test mem fuel p ≡ ok (p + length s)
  unfolding skip_while load
  skip_while-Stops test zero p s t at all stops h = absurd (omega arith)
  skip_while-Stops test (suc fuel) p [] [] at all stops h = ground (arith, at, stops)
  skip_while-Stops test (suc fuel) p [] (c ∷ t) (here, nz, small, at) all stops h =
      ground (arith, here, stops)
  skip_while-Stops test (suc fuel) p (c ∷ s) t (here, nz, small, at) (holds, all) stops h =
      ground (arith, here, holds, skip_while-Stops test fuel (p + 1) s t at all stops (omega arith))

  strtoul-Stops_from :
      (fuel acc p : ℕ) (s t : List ℕ) (v : ℕ)
      → StrAt mem p (s ++ t)
      → Stops is_hex t
      → hex_from acc s ≡ some v
      → length s < fuel
      → strtoul mem 16 fuel (acc % 2 ^ 64) p ≡ ok (v % 2 ^ 64, p + length s)
  unfolding strtoul load
  strtoul-Stops_from zero acc p s t v at stops e h = absurd (omega arith)
  strtoul-Stops_from (suc fuel) acc p [] [] v at stops e h = ground (arith, at)
  strtoul-Stops_from (suc fuel) acc p [] (c ∷ t) v (here, nz, small, at) stops e h =
      ground (arith, here, is_hex-hex_digit c stops)
  strtoul-Stops_from (suc fuel) acc p (c ∷ s) t v (here, nz, small, at) stops e h =
      let next : (d : ℕ)
          → hex_digit c ≡ some d
          → strtoul mem 16 fuel ((acc % 2 ^ 64 * 16 % 2 ^ 64 + d) % 2 ^ 64) (p + 1)
            ≡ ok (v % 2 ^ 64, p + 1 + length s) =
        λ d found.
          subst (λ (a : ℕ). strtoul mem 16 fuel a (p + 1) ≡ ok (v % 2 ^ 64, p + 1 + length s))
            (omega arith)
            (strtoul-Stops_from fuel (acc * 16 + d) (p + 1) s t v at stops (ground arith)
              (omega arith)) in
      elim (Option-cases (hex_digit c)) [
        | inl stop ↦ ground arith
        | inr (d, found) ↦ ground (arith, next d found)
      ]

  -- The digits of a number up to another character.
  pub strtoul-Stops :
      (fuel p : ℕ) (s t : List ℕ) (v : ℕ)
      → StrAt mem p (s ++ t)
      → Stops is_hex t
      → hex_from 0 s ≡ some v
      → length s < fuel
      → strtoul mem 16 fuel 0 p ≡ ok (v % 2 ^ 64, p + length s)
  strtoul-Stops fuel p s t v at stops e h = strtoul-Stops_from fuel 0 p s t v at stops e h
