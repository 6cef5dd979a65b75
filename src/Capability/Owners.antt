-- ===== src/Capability/Owners.antt =====
-- Who may take a capability, and who may give it back.
use raccoon_exok.Common.{ℕ, ◌≡◌, ◌≢◌, refl, ◌∙◌, ap, some, List, [], ◌∷◌, arith, ◌==◌}
use raccoon_exok.Common.Run.{ok, ◌>>=◌}
use raccoon_exok.Memory.{Memory, StrAt}
use raccoon_exok.Strings.Equality.{same_text_iff}
use raccoon_exok.Capability.{Capability, no_core, get_capability, release_capability}
use raccoon_exok.Capability.Lookup.{
  Named, holder, assign, answer, answer-refused, get_capability-answer, release_capability-answer,
  Named-assign, holder-assign,
}

-- Assigning the holder that is there changes nothing, and a later assignment wins.
assign_self :
    (n : List ℕ) (core : ℕ) (names : List (List ℕ)) (caps : List Capability)
    → holder n names caps ≡ some core
    → assign n core names caps ≡ caps
unfolding holder assign
assign_self n core [] caps h = refl
assign_self n core (m ∷ names) [] h = refl
assign_self n core (m ∷ names) (c ∷ caps) h = ground (arith, assign_self n core names caps)

assign-assign :
    (n : List ℕ) (j k : ℕ) (names : List (List ℕ)) (caps : List Capability)
    → assign n k names (assign n j names caps) ≡ assign n k names caps
unfolding assign
assign-assign n j k [] caps = refl
assign-assign n j k (m ∷ names) [] = refl
assign-assign n j k (m ∷ names) (c ∷ caps) = ground (arith, assign-assign n j k names caps)

module _ (mem : Memory) (fuel name : ℕ) (n : List ℕ) (names : List (List ℕ))
    (caps : List Capability) (at : StrAt mem name n) (named : Named mem fuel caps names) where
  -- On a table whose entries have readable names, a free capability goes to the core that asks, if
  -- its number is not the mark of a free entry: that core holds it then, the holders of other
  -- names stay, and every further request for it, by any core, is refused without a change.
  pub get_capability-exclusive :
      (core : ℕ)
      → core ≢ no_core
      → holder n names caps ≡ some no_core
      → (table : List Capability) × (get_capability mem fuel name core caps ≡ ok (1, table))
        × Named mem fuel table names
        × (holder n names table ≡ some core)
        × ((k : List ℕ) → k ≢ n → holder k names table ≡ holder k names caps)
        × ((other : ℕ) → get_capability mem fuel name other table ≡ ok (0, table))
  get_capability-exclusive core real unheld = (
    table,
    get_capability-answer mem fuel name core n at names caps named ∙ ap ok (granted unheld),
    kept,
    mine,
    λ k ne. ground (arith, holder-assign n k core names caps, same_text_iff n k),
    λ other. get_capability-answer mem fuel name other n at names table kept ∙ ap ok (denied other),
  )
    where
      table : List Capability
      table = assign n core names caps

      kept : Named mem fuel table names
      kept = Named-assign mem fuel core n names caps named

      mine : holder n names table ≡ some core
      mine = ground (arith, holder-assign n n core names caps, same_text_iff n n)

      granted :
          holder n names caps ≡ some no_core
          → answer (λ h. h == no_core) core n names caps ≡ (1, table)
      granted h = ground arith

      denied : (other : ℕ) → answer (λ h. h == no_core) other n names table ≡ (0, table)
      denied other = answer-refused (λ h. h == no_core) other n names table core mine (ground arith)

  -- On a table whose entries have readable names, a request for a name that is held, or that no
  -- entry has, is refused without a change.
  pub get_capability-refused :
      (core : ℕ)
      → holder n names caps ≢ some no_core
      → get_capability mem fuel name core caps ≡ ok (0, caps)
  get_capability-refused core h =
      get_capability-answer mem fuel name core n at names caps named ∙ ap ok (refused h)
    where
      refused :
          holder n names caps ≢ some no_core
          → answer (λ h. h == no_core) core n names caps ≡ (0, caps)
      refused ne = ground arith

  -- On a table whose entries have readable names, only the core that holds a capability can give
  -- it back: a release by a core that does not hold it is refused without a change.
  pub release_capability-refused :
      (core : ℕ)
      → holder n names caps ≢ some core
      → release_capability mem fuel name core caps ≡ ok (0, caps)
  release_capability-refused core h =
      release_capability-answer mem fuel name core n at names caps named ∙ ap ok (refused h)
    where
      refused :
          holder n names caps ≢ some core → answer (λ h. h == core) no_core n names caps ≡ (0, caps)
      refused ne = ground arith

  -- On a table whose entries have readable names, taking a free capability and giving it back
  -- succeeds twice and restores the table.
  pub release-get_capability :
      (core : ℕ)
      → holder n names caps ≡ some no_core
      → (get_capability mem fuel name core caps >>= λ (r, table).
          release_capability mem fuel name core table)
        ≡ ok (1, caps)
  release-get_capability core unheld =
      ap (λ m. m >>= λ (r, t). release_capability mem fuel name core t)
        (get_capability-answer mem fuel name core n at names caps named ∙ ap ok taken)
      ∙ release_capability-answer mem fuel name core n at names table
          (Named-assign mem fuel core n names caps named)
      ∙ ap ok given
    where
      table : List Capability
      table = assign n core names caps

      taken : answer (λ h. h == no_core) core n names caps ≡ (1, table)
      taken = ground arith

      given : answer (λ h. h == core) no_core n names table ≡ (1, caps)
      given = ground (
        arith,
        holder-assign n n core names caps,
        same_text_iff n n,
        assign-assign n core no_core names caps,
        assign_self n no_core names caps unheld,
      )
