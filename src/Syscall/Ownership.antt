-- ===== src/Syscall/Ownership.antt =====
-- Over any sequence of system calls a capability stays with its holder.
use raccoon_exok.Common.{
  ℕ, ◌≡◌, ◌≢◌, refl, sym, ◌∙◌, ap, Bool, true, some, List, [], ◌∷◌, ◌⊎◌, inl, inr, arith, ◌==◌,
  Bool-cases, Option-cases, subst,
}
use raccoon_exok.Common.Run.{ok, ◌>>=◌}
use raccoon_exok.Common.Word.{u16}
use raccoon_exok.Memory.{Memory, StrAt}
use raccoon_exok.Strings.Equality.{same_text_iff}
use raccoon_exok.Capability.{Capability, no_core}
use raccoon_exok.Capability.Lookup.{
  Named, holder, assign, answer, answer-granted, answer-refused, answer-absent,
  get_capability-answer, release_capability-answer, Named-assign, holder-assign,
}
use raccoon_exok.Syscall.{SyscallPack, syscall_handler, serve}

-- A call whose argument is a text, where the call reads one.
abbrev pub IsCall : Memory → SyscallPack → Type 0
IsCall mem pack =
    ((n : List ℕ) × StrAt mem pack.arg1 n) ⊎ ((pack.syscall_id ≢ 1) × (pack.syscall_id ≢ 2))

abbrev pub AreCalls : Memory → List (ℕ × SyscallPack) → Type 0
AreCalls mem [] = Unit
AreCalls mem ((coreid, pack) ∷ calls) = IsCall mem pack × AreCalls mem calls

-- No call is made by core `j`.
abbrev pub Without : ℕ → List (ℕ × SyscallPack) → Type 0
Without j [] = Unit
Without j ((coreid, pack) ∷ calls) = (u16 coreid ≢ j) × Without j calls

-- What a call may do to a table: the names stay, and what core `j` holds stays with it, unless
-- core `j` makes the call.
abbrev Keeps : Memory → ℕ → List (List ℕ) → ℕ → ℕ → List Capability → List Capability → Type 0
Keeps mem fuel names coreid j caps table =
    Named mem fuel table names
    × ((k : List ℕ)
        → u16 coreid ≢ j
        → j ≢ no_core
        → holder k names caps ≡ some j
        → holder k names table ≡ some j)

module _ (mem : Memory) (fuel : ℕ) (names : List (List ℕ)) where
  unchanged :
      (coreid j : ℕ) (caps : List Capability)
      → Named mem fuel caps names
      → Keeps mem fuel names coreid j caps caps
  unchanged coreid j caps named = (named, λ k ne real held. held)

  reassigned :
      (core : ℕ) (n : List ℕ) (h coreid j : ℕ) (caps : List Capability)
      → Named mem fuel caps names
      → holder n names caps ≡ some h
      → (u16 coreid ≢ j → j ≢ no_core → h ≢ j)
      → Keeps mem fuel names coreid j caps (assign n core names caps)
  reassigned core n h coreid j caps named held other = (
    Named-assign mem fuel core n names caps named,
    λ k ne real kept.
        ground (arith, holder-assign n k core names caps, same_text_iff n k, other ne real),
  )

  -- An answer moves only a capability whose holder the test accepts.
  answer-Keeps :
      (grants : ℕ → Bool) (core : ℕ) (n : List ℕ) (coreid j : ℕ) (caps : List Capability)
      → Named mem fuel caps names
      → ((h : ℕ) → grants h ≡ true → u16 coreid ≢ j → j ≢ no_core → h ≢ j)
      → Keeps mem fuel names coreid j caps (answer grants core n names caps).1
  answer-Keeps grants core n coreid j caps named other = elim (Option-cases (holder n names caps)) [
    | inl absent ↦
        move (answer-absent grants core n names caps absent) (unchanged coreid j caps named)
    | inr (h, held) ↦ elim (Bool-cases (grants h)) [
      | inl granted ↦
          move (answer-granted grants core n names caps h held granted)
            (reassigned core n h coreid j caps named held (other h granted))
      | inr refused ↦
          move (answer-refused grants core n names caps h held refused)
            (unchanged coreid j caps named)
    ]
  ]
    where
      move :
          {p q : ℕ × List Capability}
          → p ≡ q
          → Keeps mem fuel names coreid j caps q.1
          → Keeps mem fuel names coreid j caps p.1
      move e = subst (λ r. Keeps mem fuel names coreid j caps r.1) (sym e)

  -- A call returns, and keeps what the other cores hold.
  pub syscall_handler-Keeps :
      (coreid j : ℕ) (pack : SyscallPack) (caps : List Capability)
      → IsCall mem pack
      → Named mem fuel caps names
      → (r : ℕ) × ((table : List Capability) × (syscall_handler mem fuel coreid pack caps
            ≡ ok (r, table))
          × Keeps mem fuel names coreid j caps table)
  syscall_handler-Keeps coreid j pack caps (inr (ne, ne')) named =
      (pack.arg1, (caps, (unfold syscall_handler in ground arith), unchanged coreid j caps named))
  syscall_handler-Keeps coreid j pack caps (inl (n, at)) named =
      elim (Bool-cases (pack.syscall_id == 1)) [
        | inl acquires ↦
            let a = answer (λ h. h == no_core) (u16 coreid) n names caps in
            (
              a.0,
              (
                a.1,
                (unfold syscall_handler in
                    rw acquires (
                      get_capability-answer mem fuel pack.arg1 (u16 coreid) n at names caps named)),
                answer-Keeps (λ h. h == no_core) (u16 coreid) n coreid j caps named
                    (λ h free ne real. ground arith),
              ),
            )
        | inr other ↦ elim (Bool-cases (pack.syscall_id == 2)) [
          | inl releases ↦
              let a = answer (λ h. h == u16 coreid) no_core n names caps in
              (
                a.0,
                (
                  a.1,
                  (unfold syscall_handler in
                      rw (other, releases)
                        (release_capability-answer mem fuel pack.arg1 (u16 coreid) n at names caps
                          named)),
                  answer-Keeps (λ h. h == u16 coreid) no_core n coreid j caps named
                      (λ h mine ne real. ground arith),
                ),
              )
          | inr unknown ↦ (
            pack.arg1,
            (caps, (unfold syscall_handler in rw (other, unknown)), unchanged coreid j caps named),
          )
        ]
      ]

  -- On a table whose entries have readable names, and for calls that ask for readable names:
  -- whatever calls the other cores make, in any order, the calls return, and a capability that
  -- core `j` holds is still held by `j`.
  pub serve-holder :
      (calls : List (ℕ × SyscallPack)) (j : ℕ) (n : List ℕ) (caps : List Capability)
      → Named mem fuel caps names
      → AreCalls mem calls
      → Without j calls
      → j ≢ no_core
      → holder n names caps ≡ some j
      → (table : List Capability) × (serve mem fuel calls caps ≡ ok table)
        × (holder n names table ≡ some j)
  unfolding serve
  serve-holder [] j n caps named are others real held = (caps, refl, held)
  serve-holder ((coreid, pack) ∷ calls) j n caps named (is, are) (ne, others) real held =
      let (r, (table, runs, (named', kept))) = syscall_handler-Keeps coreid j pack caps is named in
      let (end, rest, still) =
        serve-holder calls j n table named' are others real (kept n ne real held) in
      (end, ap (λ m. m >>= λ (r, t). serve mem fuel calls t) runs ∙ rest, still)
