-- ===== src/Parse/Tests.antt =====
-- A file for two cores.
use raccoon_exok.Common.{ℕ, ◌-◌, ◌≡◌, refl, List, [], ◌∷◌, ◌++◌, ◌<◌, ltb, if◌then◌else◌, arith}
use raccoon_exok.Common.Run.{ok}
use raccoon_exok.Memory.{Memory, load, put, store}
use raccoon_exok.Memory.Text.{codes, placed, has_text-StrAt}
use raccoon_exok.Parse.{Init, to_lines, parse_file}
use raccoon_exok.Parse.Programs.{ProgramsAt, parse_file-ProgramsAt}

-- "CORES " at 200, and the file from 100 to 119.
abbrev file : Memory
file p =
    if ltb p 200
    then placed 100 (codes "CORES 2" ++ (10 ∷ codes "0 HANG" ++ (10 ∷ codes "1 a" ++ (10 ∷ [])))) p
    else placed 200 (codes "CORES " ++ (0 ∷ [])) p

abbrev lined : Memory
lined = store (store (store file 107 0) 114 0) 118 0

lined-to_lines : to_lines (119 - 100) 100 file ≡ ok lined
unfolding to_lines load put
lined-to_lines = refl

abbrev entries : List (List ℕ × List ℕ)
entries = (codes "0", codes "HANG") ∷ (codes "1", codes "a") ∷ []

parse_file-ProgramsAt_example :
    (init : Init) × (mem' : Memory) × (parse_file 200 100 119 9 3 file ≡ ok (init, mem'))
    × (init.required_cores ≡ 2)
    × ((q : ℕ) → q < 100 → mem' q ≡ lined q)
    × ProgramsAt mem' 9 init 0 entries
parse_file-ProgramsAt_example =
    parse_file-ProgramsAt 200 100 119 9 3 file lined (codes "2") entries lined-to_lines
      (has_text-StrAt lined 200 (codes "CORES ") refl)
      (has_text-StrAt lined 100 (codes "CORES 2") refl) (refl, tt) (omega arith) (omega arith)
      (
        omega arith,
        omega arith,
        (refl, refl),
        (refl, tt),
        refl,
        omega arith,
        has_text-StrAt lined 110 (codes "HANG") refl,
        omega arith,
        (
          omega arith,
          omega arith,
          (refl, refl),
          (refl, tt),
          refl,
          omega arith,
          has_text-StrAt lined 117 (codes "a") refl,
          omega arith,
          refl,
        ),
      )
      (omega arith) (omega arith)
