-- ===== src/Memory/Text.antt =====
-- Text as bytes, for tests.
use Prim.Native.String.{String}
use Prim.Native.Char.{code}
use raccoon_exok.Common.{
  ℕ, ◌+◌, ◌-◌, ◌≡◌, Option, none, some, List, [], ◌∷◌, get_elem?, ltb, if◌then◌else◌, Bool, true,
  false, ◌&&◌, not, ◌==◌, Option-cases, inl, inr, arith,
}
use raccoon_exok.Memory.{Memory, StrAt}

abbrev pub codes : String → List ℕ
codes String.[] = []
codes (String.◌∷◌ c s) = code c ∷ codes s

-- A memory that holds `bytes` from `base` on, and nothing else.
abbrev pub placed : ℕ → List ℕ → ℕ → Option ℕ
placed base bytes p = if ltb p base then none else get_elem? bytes (p - base)

-- Whether the text `s` stands at `p`.
abbrev pub has_text : Memory → ℕ → List ℕ → Bool
has_text mem p [] = elim (mem p) [ none ↦ false | some b ↦ b == 0 ]
has_text mem p (c ∷ s) =
    elim (mem p) [ none ↦ false | some b ↦ b == c ]
    && (not (c == 0) && (ltb c 256 && has_text mem (p + 1) s))

pub has_text-StrAt : (mem : Memory) (p : ℕ) (s : List ℕ) → has_text mem p s ≡ true → StrAt mem p s
has_text-StrAt mem p [] h = elim (Option-cases (mem p)) [
  | inl nothing ↦ ground (arith, nothing)
  | inr (b, here) ↦ ground (arith, here)
]
has_text-StrAt mem p (c ∷ s) h = elim (Option-cases (mem p)) [
  | inl nothing ↦ ground (arith, nothing)
  | inr (b, here) ↦ (
    ground (arith, here),
    ground (arith, here),
    ground (arith, here),
    has_text-StrAt mem (p + 1) s (ground (arith, here)),
  )
]
