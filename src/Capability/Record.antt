-- ===== src/Capability/Record.antt =====
-- The loop of `init_capabilities_record` of kernel/src/capability_recorder.c, which frees all
-- capabilities and gives the framebuffer its range.
use raccoon_exok.Common.{
  ℕ, ◌≡◌, refl, ◌⊎◌, inl, inr, none, some, List, [], ◌∷◌, arith, if◌then◌else◌, Bool-cases,
}
use raccoon_exok.Common.Run.{Run, ok, ◌>>=◌}
use raccoon_exok.Memory.{Memory, StrAt}
use raccoon_exok.Strings.{second_strcmp}
use raccoon_exok.Strings.Equality.{
  same_text, is_zero, second_strcmp-difference, is_zero-text_difference,
}
use raccoon_exok.Capability.{Capability, no_core}
use raccoon_exok.Capability.Lookup.{Named, holder}

-- `interface->framebuffer`
pub record InterfaceRange : Type 0 where
  pub begin : ℕ
  pub end : ℕ

module _ (framebuffer : InterfaceRange) where
  -- The table that has the framebuffer's range under the name `f`, and every entry free.
  abbrev pub freed : List ℕ → List (List ℕ) → List Capability → List Capability
  freed f [] caps = []
  freed f (n ∷ names) [] = []
  freed f (n ∷ names) (c ∷ caps) =
      record c {
        begin_addr = if same_text n f then framebuffer.begin else c.begin_addr;
        end_addr = if same_text n f then framebuffer.end else c.end_addr;
        core_number = no_core;
      }
      ∷ freed f names caps

  holder-freed :
      (f n : List ℕ) (names : List (List ℕ)) (caps : List Capability)
      → (holder n names (freed f names caps) ≡ none)
        ⊎ (holder n names (freed f names caps) ≡ some no_core)
  unfolding holder
  holder-freed f n [] caps = inl refl
  holder-freed f n (m ∷ names) [] = inl refl
  holder-freed f n (m ∷ names) (c ∷ caps) = elim (Bool-cases (same_text m n)) [
    | inl here ↦ inr (ground arith)
    | inr on ↦ elim (holder-freed f n names caps) [
      | inl h ↦ inl (ground arith)
      | inr h ↦ inr (ground arith)
    ]
  ]

module _ (mem : Memory) (fuel literal : ℕ) (framebuffer : InterfaceRange) where
  -- The loop over `caps`; `literal` is the address of "framebuffer".
  unfoldable pub record_loop : List Capability → Run (List Capability)
  record_loop [] = ok []
  record_loop (c ∷ rest) = do
    z ← second_strcmp mem fuel c.name literal
    recorded ← record_loop rest
    let begin = if is_zero z then framebuffer.begin else c.begin_addr
    let end = if is_zero z then framebuffer.end else c.end_addr
    ok (record c { begin_addr = begin; end_addr = end; core_number = no_core } ∷ recorded)

  record_loop-freed :
      (f : List ℕ) (names : List (List ℕ)) (caps : List Capability)
      → StrAt mem literal f
      → Named mem fuel caps names
      → record_loop caps ≡ ok (freed framebuffer f names caps)
  unfolding record_loop
  record_loop-freed f [] [] at named = refl
  record_loop-freed f [] (c ∷ caps) at named = absurd named
  record_loop-freed f (n ∷ names) [] at named = absurd named
  record_loop-freed f (n ∷ names) (c ∷ caps) at (text, short, named) = ground (
    arith,
    second_strcmp-difference mem fuel c.name literal n f text at short,
    is_zero-text_difference mem c.name literal n f text at,
    record_loop-freed f names caps at named,
  )

  Named-freed :
      (f : List ℕ) (names : List (List ℕ)) (caps : List Capability)
      → Named mem fuel caps names
      → Named mem fuel (freed framebuffer f names caps) names
  Named-freed f [] [] named = tt
  Named-freed f [] (c ∷ caps) named = absurd named
  Named-freed f (n ∷ names) [] named = absurd named
  Named-freed f (n ∷ names) (c ∷ caps) (text, short, named) =
      (text, short, Named-freed f names caps named)

  -- On a table whose entries have readable names the loop of `init_capabilities_record` succeeds,
  -- gives every entry of the framebuffer's name the framebuffer's range, keeps all names and other
  -- ranges, and leaves every capability free.
  pub record_loop-frees :
      (f : List ℕ) (names : List (List ℕ)) (caps : List Capability)
      → StrAt mem literal f
      → Named mem fuel caps names
      → (record_loop caps ≡ ok (freed framebuffer f names caps))
        × Named mem fuel (freed framebuffer f names caps) names
        × ((n : List ℕ)
            → (holder n names (freed framebuffer f names caps) ≡ none)
              ⊎ (holder n names (freed framebuffer f names caps) ≡ some no_core))
  record_loop-frees f names caps at named = (
    record_loop-freed f names caps at named,
    Named-freed f names caps named,
    λ n. holder-freed framebuffer f n names caps,
  )
