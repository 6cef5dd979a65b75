-- ===== src/Capability/Lookup.antt =====
-- The table as a list of named entries: what the two loops come to when every name is a text.
use mathlib.Core.Option
use raccoon_exok.Common.{
  ℕ, ◌<◌, ◌≡◌, refl, Bool, true, false, Option, none, some, List, [], ◌∷◌, arith, ◌==◌,
  if◌then◌else◌, length, Bool-cases, inl, inr,
}
use raccoon_exok.Common.Run.{ok}
use raccoon_exok.Memory.{Memory, StrAt}
use raccoon_exok.Strings.Equality.{
  same_text, same_text_iff, second_strcmp-difference, is_zero-text_difference,
}
use raccoon_exok.Capability.{Capability, no_core, get_capability, release_capability}

-- The names of the entries are the texts `names`, each shorter than `fuel`.
abbrev pub Named : Memory → ℕ → List Capability → List (List ℕ) → Type 0
Named mem fuel [] [] = Unit
Named mem fuel [] (n ∷ names) = ⊥
Named mem fuel (c ∷ caps) [] = ⊥
Named mem fuel (c ∷ caps) (n ∷ names) =
    StrAt mem c.name n × (length n < fuel) × Named mem fuel caps names

-- The holder of the first entry named `n`.
unfoldable pub holder : List ℕ → List (List ℕ) → List Capability → Option ℕ
holder n [] caps = none
holder n (m ∷ names) [] = none
holder n (m ∷ names) (c ∷ caps) = if same_text m n then some c.core_number else holder n names caps

-- The table with `core` as the holder of the first entry named `n`.
unfoldable pub assign : List ℕ → ℕ → List (List ℕ) → List Capability → List Capability
assign n core [] caps = caps
assign n core (m ∷ names) [] = []
assign n core (m ∷ names) (c ∷ caps) =
    if same_text m n then record c { core_number = core } ∷ caps else c ∷ assign n core names caps

-- What a request for the entry named `n` does, given when it is granted and the new holder.
abbrev pub answer : (ℕ → Bool) → ℕ → List ℕ → List (List ℕ) → List Capability → ℕ × List Capability
answer grants core n names caps = elim (holder n names caps) [
  | none ↦ (0, caps)
  | some h ↦ if grants h then (1, assign n core names caps) else (0, caps)
]

-- The three cases of an answer.
module _ (grants : ℕ → Bool) (core : ℕ) (n : List ℕ) (names : List (List ℕ))
    (caps : List Capability) where
  pub answer-granted :
      (h : ℕ)
      → holder n names caps ≡ some h
      → grants h ≡ true
      → answer grants core n names caps ≡ (1, assign n core names caps)
  answer-granted h held yes_h = ground arith

  pub answer-refused :
      (h : ℕ)
      → holder n names caps ≡ some h
      → grants h ≡ false
      → answer grants core n names caps ≡ (0, caps)
  answer-refused h held no_h = ground arith

  pub answer-absent : holder n names caps ≡ none → answer grants core n names caps ≡ (0, caps)
  answer-absent absent = ground arith

module _ (mem : Memory) (fuel name core : ℕ) (n : List ℕ) (at : StrAt mem name n) where
  -- `get_capability` grants the entry of that name if no core holds it.
  pub get_capability-answer :
      (names : List (List ℕ)) (caps : List Capability)
      → Named mem fuel caps names
      → get_capability mem fuel name core caps ≡ ok (answer (λ h. h == no_core) core n names caps)
  unfolding get_capability holder assign
  get_capability-answer [] [] named = refl
  get_capability-answer [] (c ∷ caps) named = absurd named
  get_capability-answer (m ∷ names) [] named = absurd named
  get_capability-answer (m ∷ names) (c ∷ caps) (text, short, named) = ground (
    arith,
    second_strcmp-difference mem fuel c.name name m n text at short,
    is_zero-text_difference mem c.name name m n text at,
    get_capability-answer names caps named,
  )

  -- `release_capability` frees the entry of that name if the caller holds it.
  pub release_capability-answer :
      (names : List (List ℕ)) (caps : List Capability)
      → Named mem fuel caps names
      → release_capability mem fuel name core caps
        ≡ ok (answer (λ h. h == core) no_core n names caps)
  unfolding release_capability holder assign
  release_capability-answer [] [] named = refl
  release_capability-answer [] (c ∷ caps) named = absurd named
  release_capability-answer (m ∷ names) [] named = absurd named
  release_capability-answer (m ∷ names) (c ∷ caps) (text, short, named) = ground (
    arith,
    second_strcmp-difference mem fuel c.name name m n text at short,
    is_zero-text_difference mem c.name name m n text at,
    release_capability-answer names caps named,
  )

-- An assignment changes no name.
pub Named-assign :
    (mem : Memory) (fuel core : ℕ) (n : List ℕ) (names : List (List ℕ)) (caps : List Capability)
    → Named mem fuel caps names
    → Named mem fuel (assign n core names caps) names
unfolding assign
Named-assign mem fuel core n [] [] named = tt
Named-assign mem fuel core n [] (c ∷ caps) named = absurd named
Named-assign mem fuel core n (m ∷ names) [] named = absurd named
Named-assign mem fuel core n (m ∷ names) (c ∷ caps) (text, short, named) =
    elim (Bool-cases (same_text m n)) [
      | inl here ↦ rw here (text, short, named)
      | inr later ↦ rw later (text, short, Named-assign mem fuel core n names caps named)
    ]

-- After an assignment the entry has the new holder, and every other name has the old one.
pub holder-assign :
    (n k : List ℕ) (core : ℕ) (names : List (List ℕ)) (caps : List Capability)
    → holder k names (assign n core names caps) ≡ (
        if same_text n k then Option.map (λ _. core) (holder k names caps) else holder k names caps)
unfolding holder assign
holder-assign n k core [] caps = ground arith
holder-assign n k core (m ∷ names) [] = ground arith
holder-assign n k core (m ∷ names) (c ∷ caps) = ground (
  arith,
  same_text_iff m n,
  same_text_iff m k,
  same_text_iff n k,
  holder-assign n k core names caps,
)
