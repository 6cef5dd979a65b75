-- ===== src/Capability.antt =====
-- kernel/src/capability_recorder.c: the table of capabilities and who holds each. The table is the
-- array `caps`; an `int16_t` core number is its 16-bit pattern, so that -1 is `no_core`.
pub mod Lookup
pub mod Owners
pub mod Race
pub mod Record
mod Tests
use raccoon_exok.Common.{ℕ, zero, suc, ◌+◌, Bool, true, false, List, [], ◌∷◌, ◌==◌, if◌then◌else◌}
use raccoon_exok.Common.Run.{Run, ok, ◌>>=◌}
use raccoon_exok.Memory.{Memory}
use raccoon_exok.Strings.{second_strcmp}
use raccoon_exok.Strings.Equality.{is_zero}

-- `struct capability` of cap_mgr.h; `name` is a pointer.
pub record Capability : Type 0 where
  pub name : ℕ
  pub begin_addr : ℕ
  pub end_addr : ℕ
  pub io_perms : ℕ
  pub core_number : ℕ

abbrev pub no_core : ℕ
no_core = 0xffff

abbrev pub max_capabilities : ℕ
max_capabilities = 64

-- `caps[i].core_number = core` and the return value, put before the entries passed over.
abbrev pub behind : Capability → ℕ × List Capability → Run (ℕ × List Capability)
behind c (r, rest) = ok (r, c ∷ rest)

module _ (mem : Memory) (fuel name core : ℕ) where
  -- The loop over `caps`: the first entry of that name decides, and 0 if there is none.
  unfoldable pub get_capability : List Capability → Run (ℕ × List Capability)
  get_capability [] = ok (0, [])
  get_capability (c ∷ rest) = do
    z ← second_strcmp mem fuel c.name name
    let later = get_capability rest >>= behind c
    if is_zero z
        then if c.core_number == no_core
          then ok (1, record c { core_number = core } ∷ rest)
          else ok (0, c ∷ rest)
        else later

  unfoldable pub release_capability : List Capability → Run (ℕ × List Capability)
  release_capability [] = ok (0, [])
  release_capability (c ∷ rest) = do
    z ← second_strcmp mem fuel c.name name
    let later = release_capability rest >>= behind c
    if is_zero z
        then if c.core_number == core
          then ok (1, record c { core_number = no_core } ∷ rest)
          else ok (0, c ∷ rest)
        else later
