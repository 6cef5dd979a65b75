-- ===== src/Parse/Sections/Fields.antt =====
-- One round of the inner loop of fill_capabilities, kernel/src/parse_capability_map.c.
use raccoon_exok.Common.{
  ℕ, ◌+◌, ◌<◌, ◌≡◌, refl, subst, sym, some, List, [], ◌∷◌, ◌++◌, length, arith, set, get_elem?,
  length-append, set-same,
}
use mathlib.Core.List.{append-nil}
use raccoon_exok.Common.Run.{ok}
use raccoon_exok.Memory.{Memory, StrAt}
use raccoon_exok.Memory.Text.{codes}
use raccoon_exok.Capability.{Capability}
use raccoon_exok.Parse.Sections.{skip_while, is_inside, parse_field}
use raccoon_exok.Parse.Sections.Text.{
  AllTrue, StrAt-suffix, starts_with-is_prefix, skip_while-Stops,
}
use raccoon_exok.Parse.Sections.Lines.{
  Perms, perms_text, Line, address, ioperms, other, line_text, Reads,
}
use raccoon_exok.Parse.Sections.Address.{
  parse_address-reads, no_ioperms, Stops-between, Stops-second,
}
use raccoon_exok.Parse.Sections.Perms.{parse_ioperms-reads, StrAt-end}

module _ (mem : Memory) (fuel i : ℕ) where
  -- From inside a text the scan to the end of the line goes to its 0.
  pub line_end :
      (p : ℕ) (s : List ℕ)
      → StrAt mem p s
      → length s < fuel
      → skip_while is_inside mem fuel p ≡ ok (p + length s)
  line_end p s at h =
      skip_while-Stops mem is_inside fuel p s []
        (subst (λ (t : List ℕ). StrAt mem p t) (sym (append-nil s)) at) (inside p s at) refl h
    where
      inside : (p : ℕ) (s : List ℕ) → StrAt mem p s → AllTrue is_inside s
      inside p [] at = tt
      inside p (c ∷ s) (here, nz, small, at) = (ground arith, inside (p + 1) s at)

  parse_field-address :
      (p : ℕ) (first between second : List ℕ) (caps : List Capability) (c c' : Capability)
      → StrAt mem p (line_text (address first between second))
      → Reads (address first between second) c c'
      → length (line_text (address first between second)) < fuel
      → get_elem? caps i ≡ some c
      → parse_field mem fuel i p caps
        ≡ ok (p + length (line_text (address first between second)) + 1, set caps i c')
  unfolding parse_field
  parse_field-address p first between second caps c c' at
        (v, u, hv, hu, seps, some_sep, some_digit, e) h found =
      let rest = first ++ (between ++ second) in
      let body = StrAt-suffix mem p (codes "    ADDRESS ") rest at in
      let tail = StrAt-suffix mem (p + 12) first (between ++ second) body in
      let short : length rest < fuel = omega arith in
      let size = length-append first (between ++ second) in
      ground (
        arith,
        starts_with-is_prefix mem p (codes "    ADDRESS " ++ rest) (codes "    ADDRESS ") at refl,
        parse_address-reads mem fuel i (p + 12) first between second v u caps c body hv hu seps
            (Stops-between between second seps some_sep) (Stops-second second u some_digit hu) short
            found,
        starts_with-is_prefix mem (p + 12 + length first) (between ++ second) (codes "    IOperms ")
            tail refl,
        no_ioperms 4 (codes "Operms ") between second u seps some_digit hu,
        line_end (p + 12 + length first) (between ++ second) tail (omega (arith, size)),
        size,
        e,
      )

  parse_field-ioperms :
      (p : ℕ) (perms : Perms) (behind : List ℕ) (caps : List Capability) (c c' : Capability)
      → StrAt mem p (line_text (ioperms perms behind))
      → Reads (ioperms perms behind) c c'
      → length (line_text (ioperms perms behind)) < fuel
      → get_elem? caps i ≡ some c
      → parse_field mem fuel i p caps
        ≡ ok (p + length (line_text (ioperms perms behind)) + 1, set caps i c')
  unfolding parse_field
  parse_field-ioperms p perms behind caps c c' at (seps, e) h found =
      let rest = perms_text perms ++ behind in
      let body = StrAt-suffix mem p (codes "    IOperms ") rest at in
      let zero_at : StrAt mem (p + 12 + length (perms_text perms) + length behind) [] =
        subst (λ (q : ℕ). StrAt mem q []) (omega (arith, length-append (perms_text perms) behind))
          (StrAt-end mem fuel i (p + 12) rest body) in
      ground (
        arith,
        starts_with-is_prefix mem p (codes "    IOperms " ++ rest) (codes "    ADDRESS ") at refl,
        starts_with-is_prefix mem p (codes "    IOperms " ++ rest) (codes "    IOperms ") at refl,
        parse_ioperms-reads mem fuel i (p + 12) perms behind caps c body seps (omega arith) found,
        line_end (p + 12 + length (perms_text perms) + length behind) [] zero_at (omega arith),
        length-append (perms_text perms) behind,
        e,
      )

  parse_field-other :
      (p : ℕ) (s : List ℕ) (caps : List Capability) (c c' : Capability)
      → StrAt mem p s
      → Reads (other s) c c'
      → length s < fuel
      → get_elem? caps i ≡ some c
      → parse_field mem fuel i p caps ≡ ok (p + length s + 1, set caps i c')
  unfolding parse_field
  parse_field-other p s caps c c' at (no_end, no_address, no_perms, e) h found = ground (
    arith,
    starts_with-is_prefix mem p s (codes "    ADDRESS ") at refl,
    starts_with-is_prefix mem p s (codes "    IOperms ") at refl,
    no_address,
    no_perms,
    line_end p s at h,
    set-same caps i c found,
    e,
  )

  pub parse_field-Reads :
      (p : ℕ) (l : Line) (caps : List Capability) (c c' : Capability)
      → StrAt mem p (line_text l)
      → Reads l c c'
      → length (line_text l) < fuel
      → get_elem? caps i ≡ some c
      → parse_field mem fuel i p caps ≡ ok (p + length (line_text l) + 1, set caps i c')
  parse_field-Reads p (address first between second) caps c c' at reads h found =
      parse_field-address p first between second caps c c' at reads h found
  parse_field-Reads p (ioperms perms behind) caps c c' at reads h found =
      parse_field-ioperms p perms behind caps c c' at reads h found
  parse_field-Reads p (other s) caps c c' at reads h found =
      parse_field-other p s caps c c' at reads h found
