-- ===== src/Parse/Sections/Search.antt =====
-- get_section of kernel/src/parse_capability_map.c.
use raccoon_exok.Common.{
  ℕ, zero, suc, ◌+◌, ◌-◌, ◌<◌, ◌≤◌, ◌≡◌, refl, ◌∙◌, ap, subst, true, false, some, List, [], ◌∷◌,
  ◌++◌, length, arith, if◌then◌else◌, ◌≢◌, length-append,
}
use raccoon_exok.Common.Run.{ok}
use raccoon_exok.Memory.{Memory, load, StrAt}
use raccoon_exok.Memory.Text.{codes}
use raccoon_exok.Capability.{Capability}
use raccoon_exok.Parse.Sections.{starts_with, skip_while, is_inside, section_end, get_section}
use raccoon_exok.Parse.Sections.Text.{
  is_prefix, starts_with-is_prefix, StrAt-suffix, strlen-length, strncmp-append,
}
use raccoon_exok.Parse.Sections.Lines.{Line, address, ioperms, other, line_text, Reads}
use raccoon_exok.Parse.Sections.Fields.{line_end}
use raccoon_exok.Parse.Sections.Loops.{LinesAt}

Reads-no_end :
    (l : Line) (c c' : Capability) → Reads l c c' → is_prefix (codes "END") (line_text l) ≡ false
Reads-no_end (address first between second) c c' reads = refl
Reads-no_end (ioperms perms behind) c c' reads = refl
Reads-no_end (other s) c c' (no_end, no_address, no_perms, same) = no_end

module _ (mem : Memory) (fuel i : ℕ) where
  starts_with-cons :
      (p c : ℕ) (t : List ℕ)
      → mem p ≡ some c
      → starts_with mem p (c ∷ t) ≡ starts_with mem (p + 1) t
  unfolding starts_with load
  starts_with-cons p c t here = ground (arith, here)

  starts_with-differs :
      (p c d : ℕ) (t : List ℕ) → mem p ≡ some c → c ≢ d → starts_with mem p (d ∷ t) ≡ ok false
  unfolding starts_with load
  starts_with-differs p c d t here differs = ground (arith, here)

  section_end-step :
      (b p c rounds : ℕ)
      → mem p ≡ some c
      → c ≢ 0
      → section_end mem b (suc rounds) p ≡ section_end mem b rounds (p + 1)
  unfolding section_end
  section_end-step b p c rounds here nz =
      ground (arith, starts_with-differs p c 0 (codes "END") here nz)

  line_end_from :
      (p k : ℕ) (s : List ℕ)
      → StrAt mem p s
      → k ≤ length s
      → length s < fuel
      → skip_while is_inside mem fuel (p + k) ≡ ok (p + length s)
  line_end_from p zero s at h short =
      ap (λ (q : ℕ). skip_while is_inside mem fuel q) (omega arith)
      ∙ line_end mem fuel i p s at short
  line_end_from p (suc k) [] at h short = absurd (omega arith)
  line_end_from p (suc k) (c ∷ s) (here, nz, small, at) h short =
      ap (λ (q : ℕ). skip_while is_inside mem fuel q) {y = p + 1 + k} (omega arith)
      ∙ line_end_from (p + 1) k s at (omega arith) (omega arith)
      ∙ ap (λ (q : ℕ). ok q) (omega arith)

  -- The characters of a line are passed over, and its 0 too unless the next line starts with "END".
  section_end-line :
      (b p : ℕ) (s t : List ℕ) (rounds : ℕ)
      → StrAt mem p s
      → StrAt mem (p + length s + 1) t
      → section_end mem b (length s + suc rounds) p ≡ (
          if is_prefix (codes "END") t
          then ok (b, p + length s)
          else section_end mem b rounds (p + length s + 1))
  unfolding section_end
  section_end-line b p [] t rounds at next =
      let here : starts_with mem p (0 ∷ codes "END") ≡ ok (is_prefix (codes "END") t) =
        zero_first p t at (subst (λ (q : ℕ). StrAt mem q t) (omega arith) next) in
      ground (arith, here)
    where
      zero_first :
          (p : ℕ) (t : List ℕ)
          → mem p ≡ some 0
          → StrAt mem (p + 1) t
          → starts_with mem p (0 ∷ codes "END") ≡ ok (is_prefix (codes "END") t)
      zero_first p t at next =
          starts_with-cons p 0 (codes "END") at
          ∙ starts_with-is_prefix mem (p + 1) t (codes "END") next refl
  section_end-line b p (c ∷ s) t rounds (here, nz, small, at) next =
      ap (λ (n : ℕ). section_end mem b n p) {y = suc (length s + suc rounds)} (omega arith)
      ∙ section_end-step b p c (length s + suc rounds) here nz
      ∙ section_end-line b (p + 1) s t rounds at
          (subst (λ (q : ℕ). StrAt mem q t) (omega arith) next)
      ∙ ap
          (λ (q : ℕ).
            if is_prefix (codes "END") t then ok (b, q) else section_end mem b rounds (q + 1))
          {x = p + 1 + length s} {y = p + suc (length s)} (omega arith)

  section_end-LinesAt :
      (b end p : ℕ) (s last : List ℕ) (ls : List Line) (rounds : ℕ) (c c' : Capability)
      → StrAt mem p s
      → LinesAt mem fuel end (p + length s + 1) ls c c'
      → StrAt mem (end + 1) last
      → is_prefix (codes "END") last ≡ true
      → end + 1 ≤ p + rounds
      → section_end mem b rounds p ≡ ok (b, end)
  section_end-LinesAt b end p s last [] rounds c c' at (behind, same) at_last ends h =
      let line =
        section_end-line b p s last (rounds - suc (length s)) at
          (subst (λ (q : ℕ). StrAt mem q last) (omega arith) at_last) in
      ap (λ (n : ℕ). section_end mem b n p) (omega arith) ∙ line ∙ ground (arith, ends)
  section_end-LinesAt b end p s last (l ∷ ls) rounds c c' at (on, at_l, short, d, reads, rest)
        at_last ends h =
      let line = section_end-line b p s (line_text l) (rounds - suc (length s)) at at_l in
      ap (λ (n : ℕ). section_end mem b n p) (omega arith)
      ∙ line
      ∙ ground (
        arith,
        Reads-no_end l c d reads,
        section_end-LinesAt b end (p + length s + 1) (line_text l) last ls (rounds - suc (length s))
            d c' at_l rest at_last ends (omega arith),
      )

  pub get_section-LinesAt :
      (begin end e section_name : ℕ) (sys tail s last : List ℕ) (ls : List Line) (c c' : Capability)
      → StrAt mem section_name sys
      → StrAt mem begin (codes "BEGIN " ++ (sys ++ tail))
      → length (codes "BEGIN " ++ (sys ++ tail)) < fuel
      → (let from = begin + length (codes "BEGIN " ++ (sys ++ tail)) + 1 in
          StrAt mem from s
          → LinesAt mem fuel e (from + length s + 1) ls c c'
          → StrAt mem (e + 1) last
          → is_prefix (codes "END") last ≡ true
          → from < e
          → e < end
          → get_section mem fuel begin end section_name ≡ ok (from, e))
  unfolding get_section
  get_section-LinesAt begin end e section_name sys tail s last ls c c' named opens long at lines
        at_last ends on inside =
      let from = begin + length (codes "BEGIN " ++ (sys ++ tail)) + 1 in
      ground (
        arith,
        starts_with-is_prefix mem begin (codes "BEGIN " ++ (sys ++ tail)) (codes "BEGIN ") opens
            refl,
        strlen-length mem fuel section_name 0 sys
            (subst (λ (q : ℕ). StrAt mem q sys) (omega arith) named)
            (omega (arith, length-append sys tail)),
        strncmp-append mem (begin + 6) section_name sys tail
            (StrAt-suffix mem begin (codes "BEGIN ") (sys ++ tail) opens) named,
        line_end_from begin (6 + length sys - 1) (codes "BEGIN " ++ (sys ++ tail)) opens
            (omega (arith, length-append sys tail)) long,
        section_end-LinesAt from e from s last ls (end - from) c c' at lines at_last ends
            (omega arith),
      )
