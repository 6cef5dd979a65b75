-- ===== src/Parse/Sections/Perms.antt =====
-- The permission lines of kernel/src/parse_capability_map.c.
use raccoon_exok.Common.{
  ℕ, ◌+◌, ◌<◌, ◌≡◌, refl, subst, sym, some, List, [], ◌∷◌, ◌++◌, length, arith, set, get_elem?,
  length-append,
}
use mathlib.Core.List.{append-nil}
use raccoon_exok.Common.Run.{ok}
use raccoon_exok.Memory.{Memory, load, StrAt}
use raccoon_exok.Memory.Text.{codes}
use raccoon_exok.Capability.{Capability}
use raccoon_exok.Parse.Sections.{is_separator, read_perms, parse_ioperms}
use raccoon_exok.Parse.Sections.Text.{
  AllTrue, StrAt-suffix, starts_with-is_prefix, skip_while-Stops,
}
use raccoon_exok.Parse.Sections.Lines.{Perms, rw, wr, r, w, perms_text, perms_value}
use raccoon_exok.Parse.Sections.Address.{modify-some}

module _ (mem : Memory) (fuel i : ℕ) where
  read_perms-perms :
      (p : ℕ) (perms : Perms) (behind : List ℕ)
      → StrAt mem p (perms_text perms ++ behind)
      → AllTrue is_separator behind
      → read_perms mem fuel i p ≡ ok (perms_value perms, p + length (perms_text perms))
  unfolding read_perms
  read_perms-perms p rw behind at seps =
      ground (arith, starts_with-is_prefix mem p (codes "rw" ++ behind) (codes "rw") at refl)
  read_perms-perms p wr behind at seps = ground (
    arith,
    starts_with-is_prefix mem p (codes "wr" ++ behind) (codes "rw") at refl,
    starts_with-is_prefix mem p (codes "wr" ++ behind) (codes "wr") at refl,
  )
  read_perms-perms p r [] at seps = ground (
    arith,
    starts_with-is_prefix mem p (codes "r") (codes "rw") at refl,
    starts_with-is_prefix mem p (codes "r") (codes "wr") at refl,
    starts_with-is_prefix mem p (codes "r") (codes "r") at refl,
  )
  read_perms-perms p r (c ∷ behind) at (sep, seps) = ground (
    arith,
    sep,
    starts_with-is_prefix mem p (codes "r" ++ (c ∷ behind)) (codes "rw") at refl,
    starts_with-is_prefix mem p (codes "r" ++ (c ∷ behind)) (codes "wr") at refl,
    starts_with-is_prefix mem p (codes "r" ++ (c ∷ behind)) (codes "r") at refl,
  )
  read_perms-perms p w [] at seps = ground (
    arith,
    starts_with-is_prefix mem p (codes "w") (codes "rw") at refl,
    starts_with-is_prefix mem p (codes "w") (codes "wr") at refl,
    starts_with-is_prefix mem p (codes "w") (codes "r") at refl,
    starts_with-is_prefix mem p (codes "w") (codes "w") at refl,
  )
  read_perms-perms p w (c ∷ behind) at (sep, seps) = ground (
    arith,
    sep,
    starts_with-is_prefix mem p (codes "w" ++ (c ∷ behind)) (codes "rw") at refl,
    starts_with-is_prefix mem p (codes "w" ++ (c ∷ behind)) (codes "wr") at refl,
    starts_with-is_prefix mem p (codes "w" ++ (c ∷ behind)) (codes "r") at refl,
    starts_with-is_prefix mem p (codes "w" ++ (c ∷ behind)) (codes "w") at refl,
  )

  pub StrAt-end : (p : ℕ) (s : List ℕ) → StrAt mem p s → StrAt mem (p + length s) []
  StrAt-end p s at =
      StrAt-suffix mem p s [] (subst (λ (t : List ℕ). StrAt mem p t) (sym (append-nil s)) at)

  pub parse_ioperms-reads :
      (p : ℕ) (perms : Perms) (behind : List ℕ) (caps : List Capability) (c : Capability)
      → StrAt mem p (perms_text perms ++ behind)
      → AllTrue is_separator behind
      → length (perms_text perms ++ behind) < fuel
      → get_elem? caps i ≡ some c
      → parse_ioperms mem fuel i p caps
        ≡ ok (
          p + length (perms_text perms) + length behind,
          set caps i (record c { io_perms = perms_value perms }),
        )
  unfolding parse_ioperms load
  parse_ioperms-reads p perms behind caps c at seps h found =
      let at_behind = StrAt-suffix mem p (perms_text perms) behind at in
      let at_nil : StrAt mem (p + length (perms_text perms)) (behind ++ []) =
        subst (λ (t : List ℕ). StrAt mem (p + length (perms_text perms)) t)
          (sym (append-nil behind)) at_behind in
      let zero_behind = StrAt-end (p + length (perms_text perms)) behind at_behind in
      let scan =
        skip_while-Stops mem is_separator fuel (p + length (perms_text perms)) behind [] at_nil seps
          refl (omega (arith, length-append (perms_text perms) behind)) in
      ground (
        arith,
        read_perms-perms p perms behind at seps,
        modify-some caps i (λ c. record c { io_perms = perms_value perms }) c found,
        scan,
        zero_behind,
      )
