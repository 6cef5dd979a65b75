-- ===== src/Main/Tests.antt =====
-- An init file for two cores, and one program on two of four cores.
use raccoon_exok.Common.{
  ℕ, zero, suc, ◌-◌, ltb, ◌≡◌, refl, sym, ◌∙◌, true, false, List, [], ◌∷◌, ◌++◌, if◌then◌else◌,
  arith,
}
use raccoon_exok.Common.Run.{ok}
use raccoon_exok.Memory.{Memory, load, put, store}
use raccoon_exok.Memory.Text.{codes, placed, has_text-StrAt}
use raccoon_exok.Strings.Equality.{same_text}
use raccoon_exok.Parse.{Init, to_lines, parse_file}
use raccoon_exok.Main.{launches, halts, joins, kernel_main}
use raccoon_exok.Main.Names.{Named, is_hang, is_woken, Distinct}
use raccoon_exok.Main.Awoken.{kernel_main-joins}
use raccoon_exok.Main.Start.{name_of, init_file-awakes}

-- "HANG" at 100, "a" at 105 and "b" at 107.
abbrev names : Memory
names = placed 100 (codes "HANG" ++ (0 ∷ 97 ∷ 0 ∷ 98 ∷ 0 ∷ []))

-- "HANG" at 80, "CORES " at 90, and a file from 100 to 119.
abbrev file : Memory
file p =
    if ltb p 90
    then placed 80 (codes "HANG" ++ (0 ∷ [])) p
    else if ltb p 100
    then placed 90 (codes "CORES " ++ (0 ∷ [])) p
    else placed 100 (codes "CORES 2" ++ (10 ∷ codes "0 HANG" ++ (10 ∷ codes "1 a" ++ (10 ∷ [])))) p

abbrev lined : Memory
lined = store (store (store file 107 0) 114 0) 118 0

lined-to_lines : to_lines (119 - 100) 100 file ≡ ok lined
unfolding to_lines load put
lined-to_lines = refl

abbrev lines : List (List ℕ × List ℕ)
lines = (codes "0", codes "HANG") ∷ (codes "1", codes "a") ∷ []

lines-Distinct : Distinct (name_of lines) 2
lines-Distinct i k h pos below runs = absurd (omega arith)

line0-hangs : is_hang (name_of lines 0) ≡ true
unfolding same_text
line0-hangs = refl

init_file-awakes_example :
    (init : Init) × (mem' : Memory) × (addresses' : ℕ → ℕ) × (parse_file 90 100 119 9 3 file
      ≡ ok (init, mem'))
    × (kernel_main mem' 9 80 0x5000 init 0 4 (λ _. 1)
        ≡ ok (addresses', if is_hang (name_of lines 0) then halts else launches))
    × ((j : ℕ) → addresses' j ≡ (if is_woken (name_of lines) 0 2 j then 0x5000 else 1))
init_file-awakes_example =
    init_file-awakes 90 80 100 119 9 3 0x5000 4 file lined (codes "2") lines (λ _. 1) lined-to_lines
      (has_text-StrAt lined 90 (codes "CORES ") refl)
      (has_text-StrAt lined 100 (codes "CORES 2") refl) (refl, tt) (omega arith) (omega arith)
      (
        omega arith,
        omega arith,
        (refl, refl),
        (refl, tt),
        refl,
        omega arith,
        has_text-StrAt lined 110 (codes "HANG") refl,
        omega arith,
        (
          omega arith,
          omega arith,
          (refl, refl),
          (refl, tt),
          refl,
          omega arith,
          has_text-StrAt lined 117 (codes "a") refl,
          omega arith,
          refl,
        ),
      )
      (omega arith) (omega arith) refl (has_text-StrAt lined 80 (codes "HANG") refl) (omega arith)
      (omega arith) (omega arith) lines-Distinct (λ k pos h runs. differ k runs)
  where
    clash : true ≡ false → ⊥
    clash e = cc

    differ :
        (k : ℕ)
        → is_hang (name_of lines 0) ≡ false
        → same_text (name_of lines k) (name_of lines 0) ≡ false
    differ k runs = absurd (clash (sym line0-hangs ∙ runs))

abbrev one_program : Init
one_program = record { required_cores = 4; programs = 100 ∷ 105 ∷ 105 ∷ 107 ∷ [] }

abbrev one_texts : ℕ → List ℕ
one_texts zero = codes "HANG"
one_texts (suc zero) = codes "a"
one_texts (suc (suc zero)) = codes "a"
one_texts (suc (suc (suc i))) = codes "b"

one-Named : Named names 5 one_program 4 one_texts
one-Named zero h = (100, refl, has_text-StrAt names 100 (codes "HANG") refl, omega arith)
one-Named (suc zero) h = (105, refl, has_text-StrAt names 105 (codes "a") refl, omega arith)
one-Named (suc (suc zero)) h = (105, refl, has_text-StrAt names 105 (codes "a") refl, omega arith)
one-Named (suc (suc (suc zero))) h =
    (107, refl, has_text-StrAt names 107 (codes "b") refl, omega arith)
one-Named (suc (suc (suc (suc i)))) h = absurd (omega arith)

core2-runs : is_hang (one_texts 2) ≡ false
unfolding same_text
core2-runs = refl

core2-twin : same_text (one_texts 1) (one_texts 2) ≡ true
unfolding same_text
core2-twin = refl

kernel_main-joins_example :
    (addresses' : ℕ → ℕ) × (kernel_main names 5 100 0x5000 one_program 0 4 (λ _. 1)
      ≡ ok (addresses', joins 1))
    × ((j : ℕ) → addresses' j ≡ (if is_woken one_texts 0 2 j then 0x5000 else 1))
kernel_main-joins_example =
    kernel_main-joins names 5 100 0x5000 one_program 4 one_texts one-Named
      (has_text-StrAt names 100 (codes "HANG") refl) 4 2 1 (λ _. 1) refl (omega arith) (omega arith)
      (omega arith) (omega arith) (λ i k h pos below runs. absurd (omega arith)) core2-runs
      (λ k pos below. absurd (omega arith)) core2-twin
