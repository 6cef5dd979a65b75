-- ===== src/Parse/Sections/Lines.antt =====
-- The lines of a capability in the capability file, kernel/src/parse_capability_map.c.
use raccoon_exok.Common.{ℕ, ◌%◌, ◌^◌, ◌≡◌, ◌≢◌, false, some, List, [], ◌++◌}
use raccoon_exok.Memory.Text.{codes}
use raccoon_exok.Numbers.Read.{hex_from}
use raccoon_exok.Capability.{Capability}
use raccoon_exok.Parse.Sections.{is_separator}
use raccoon_exok.Parse.Sections.Text.{is_prefix, AllTrue}

pub data Perms : Type 0 where
  rw wr r w : Perms

abbrev pub perms_text : Perms → List ℕ
perms_text rw = codes "rw"
perms_text wr = codes "wr"
perms_text r = codes "r"
perms_text w = codes "w"

abbrev pub perms_value : Perms → ℕ
perms_value rw = 3
perms_value wr = 3
perms_value r = 1
perms_value w = 2

-- The numbers of an address line with what stands between them, the permissions with what stands
-- behind them, and any other line.
pub data Line : Type 0 where
  address : (first between second : List ℕ) → Line
  ioperms : (perms : Perms) (behind : List ℕ) → Line
  other : List ℕ → Line

abbrev pub line_text : Line → List ℕ
line_text (address first between second) = codes "    ADDRESS " ++ (first ++ (between ++ second))
line_text (ioperms perms behind) = codes "    IOperms " ++ (perms_text perms ++ behind)
line_text (other s) = s

-- `c'` is the capability `c` with the line's fields.
abbrev pub Reads : Line → (c c' : Capability) → Type 0
Reads (address first between second) c c' =
    (v : ℕ) × (u : ℕ) × (hex_from 0 first ≡ some v)
    × (hex_from 0 second ≡ some u)
    × AllTrue is_separator between
    × (between ≢ [])
    × (second ≢ [])
    × (c' ≡ record c { begin_addr = v % 2 ^ 64; end_addr = u % 2 ^ 64 })
Reads (ioperms perms behind) c c' =
    AllTrue is_separator behind × (c' ≡ record c { io_perms = perms_value perms })
Reads (other s) c c' =
    (is_prefix (codes "END") s ≡ false)
    × (is_prefix (codes "    ADDRESS ") s ≡ false)
    × (is_prefix (codes "    IOperms ") s ≡ false)
    × (c' ≡ c)
