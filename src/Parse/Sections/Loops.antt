-- ===== src/Parse/Sections/Loops.antt =====
-- The loops over the lines of a section, kernel/src/parse_capability_map.c.
use raccoon_exok.Common.{
  ℕ, zero, suc, ◌+◌, ◌<◌, ◌≡◌, refl, some, List, [], ◌∷◌, ◌++◌, length, arith, set, get_elem?,
  get_elem?-set-some, set-set, set-same,
}
use raccoon_exok.Common.Run.{ok}
use raccoon_exok.Memory.{Memory, StrAt}
use raccoon_exok.Memory.Text.{codes}
use raccoon_exok.Capability.{Capability}
use raccoon_exok.Parse.Sections.{field_loop, parse_capability, capability_loop}
use raccoon_exok.Parse.Sections.Text.{starts_with-is_prefix, StrAt-suffix}
use raccoon_exok.Parse.Sections.Lines.{Line, line_text, Reads}
use raccoon_exok.Parse.Sections.Address.{modify-some}
use raccoon_exok.Parse.Sections.Fields.{parse_field-Reads, line_end}

-- The lines stand one behind the other from `p`, the 0 of the last one at `end`, each shorter than
-- `fuel`, and make the capability `c` to `c'`.
abbrev pub LinesAt : Memory → (fuel end p : ℕ) → List Line → (c c' : Capability) → Type 0
LinesAt mem fuel end p [] c c' = (p ≡ end + 1) × (c' ≡ c)
LinesAt mem fuel end p (l ∷ ls) c c' =
    (p < end)
    × StrAt mem p (line_text l)
    × (length (line_text l) < fuel)
    × (d : Capability) × Reads l c d
    × LinesAt mem fuel end (p + length (line_text l) + 1) ls d c'

module _ (mem : Memory) (fuel i : ℕ) where
  field_loop-LinesAt :
      (end p : ℕ) (ls : List Line) (rounds : ℕ) (caps : List Capability) (c c' : Capability)
      → LinesAt mem fuel end p ls c c'
      → length ls < rounds
      → get_elem? caps i ≡ some c
      → field_loop mem fuel i end rounds p caps ≡ ok (end + 1, set caps i c')
  unfolding field_loop
  field_loop-LinesAt end p ls zero caps c c' at h found = absurd (omega arith)
  field_loop-LinesAt end p [] (suc rounds) caps c c' (here, same) h found =
      ground (arith, set-same caps i c found, same)
  field_loop-LinesAt end p (l ∷ ls) (suc rounds) caps c c' (on, at, short, d, reads, rest) h found =
      let one = parse_field-Reads mem fuel i p l caps c d at reads short found in
      let others =
        field_loop-LinesAt end (p + length (line_text l) + 1) ls rounds (set caps i d) d c' rest
          (omega arith) (get_elem?-set-some caps i c d found) in
      ground (arith, one, others, set-set caps i d c')

  -- A section whose first line starts with "CAPABILITY".
  pub capability_loop-LinesAt :
      (end max p : ℕ) (name : List ℕ) (ls : List Line) (rounds fields : ℕ) (caps : List Capability)
      (c c' : Capability)
      → p < end
      → i < max
      → StrAt mem p (codes "CAPABILITY" ++ name)
      → length (codes "CAPABILITY" ++ name) < fuel
      → LinesAt mem fuel end
          (p + length (codes "CAPABILITY" ++ name) + 1)
          ls
          (record c { name = p + 10 + 1 })
          c'
      → length ls < fields
      → get_elem? caps i ≡ some c
      → capability_loop mem fuel i end max (suc (suc rounds)) fields p caps ≡ ok (set caps i c')
  unfolding capability_loop parse_capability
  capability_loop-LinesAt end max p name ls rounds fields caps c c' on room at short lines h found =
      let named : Capability = record c { name = p + 10 + 1 } in
      let behind =
        line_end mem fuel i (p + 10) name (StrAt-suffix mem p (codes "CAPABILITY") name at)
          (omega arith) in
      ground (
        arith,
        starts_with-is_prefix mem p (codes "CAPABILITY" ++ name) (codes "CAPABILITY") at refl,
        modify-some caps i (λ c. record c { name = p + 10 + 1 }) c found,
        behind,
        field_loop-LinesAt end (p + length (codes "CAPABILITY" ++ name) + 1) ls fields
            (set caps i named) named c' lines (omega arith)
            (get_elem?-set-some caps i c named found),
        set-set caps i named c',
      )
