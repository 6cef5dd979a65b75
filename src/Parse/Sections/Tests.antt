-- ===== src/Parse/Sections/Tests.antt =====
-- A file with one section of two capabilities.
use raccoon_exok.Common.{ℕ, ◌-◌, ◌≡◌, refl, some, List, [], ◌∷◌, ◌++◌, ◌==◌, if◌then◌else◌, arith}
use raccoon_exok.Common.Run.{ok}
use raccoon_exok.Memory.{Memory, load, put, store}
use raccoon_exok.Memory.Text.{codes, placed, has_text-StrAt}
use raccoon_exok.Capability.{Capability, no_core}
use raccoon_exok.Parse.{to_lines}
use raccoon_exok.Parse.Sections.{fill_capabilities}
use raccoon_exok.Parse.Sections.Lines.{address, ioperms, other, wr}
use raccoon_exok.Parse.Sections.Loops.{LinesAt}
use raccoon_exok.Parse.Sections.Section.{fill_capabilities-first}

abbrev joined : (ended : ℕ) → List (List ℕ) → List ℕ
joined ended [] = []
joined ended (l ∷ ls) = l ++ (ended ∷ joined ended ls)

abbrev file : ℕ → Memory
file ended p =
    if p == 300
    then some 97
    else if p == 301
    then some 0
    else placed 100
        (joined ended (
          codes "BEGIN a"
          ∷ codes "CAPABILITY x"
          ∷ codes "    ADDRESS 0 1f"
          ∷ codes "CAPABILITY y"
          ∷ codes "    IOperms wr"
          ∷ codes "END a"
          ∷ []))
        p

abbrev lined : Memory
lined = store (store (store (store (store (store (file 10) 107 0) 120 0) 137 0) 150 0) 165 0) 171 0

lined-to_lines : to_lines (172 - 100) 100 (file 10) ≡ ok lined
unfolding to_lines load put
lined-to_lines = refl

abbrev unused : Capability
unused = record { name = 0; begin_addr = 0; end_addr = 0; io_perms = 0; core_number = no_core }

abbrev filled : Capability
filled = record { name = 119; begin_addr = 0; end_addr = 0x1f; io_perms = 3; core_number = no_core }

lined-LinesAt :
    LinesAt lined 30 165 121
      (address (codes "0") (codes " ") (codes "1f")
        ∷ other (codes "CAPABILITY y")
        ∷ ioperms wr []
        ∷ [])
      (record unused { name = 119 })
      filled
lined-LinesAt = (
  omega arith,
  has_text-StrAt lined 121 (codes "    ADDRESS 0 1f") refl,
  omega arith,
  record filled { io_perms = 0 },
  (0, 0x1f, refl, refl, (refl, tt), (λ e. cc), (λ e. cc), refl),
  (
    omega arith,
    has_text-StrAt lined 138 (codes "CAPABILITY y") refl,
    omega arith,
    record filled { io_perms = 0 },
    (refl, refl, refl, refl),
    (
      omega arith,
      has_text-StrAt lined 151 (codes "    IOperms wr") refl,
      omega arith,
      filled,
      (tt, refl),
      (refl, refl),
    ),
  ),
)

fill_capabilities-first_example :
    fill_capabilities 30 4 100 172 64 300 (file 10) (unused ∷ unused ∷ [])
    ≡ ok (filled ∷ unused ∷ [], lined)
fill_capabilities-first_example =
    fill_capabilities-first 30 4 100 172 165 64 300 (file 10) lined (codes "a") [] (codes " x")
      (codes "END a")
      (address (codes "0") (codes " ") (codes "1f")
        ∷ other (codes "CAPABILITY y")
        ∷ ioperms wr []
        ∷ [])
      (unused ∷ unused ∷ []) unused filled lined-to_lines
      (has_text-StrAt lined 300 (codes "a") refl) (has_text-StrAt lined 100 (codes "BEGIN a") refl)
      (omega arith) (has_text-StrAt lined 108 (codes "CAPABILITY x") refl) (omega arith)
      lined-LinesAt (has_text-StrAt lined 166 (codes "END a") refl) refl (omega arith) (omega arith)
      (omega arith) (omega arith) (omega arith) refl
