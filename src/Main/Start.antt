-- ===== src/Main/Start.antt =====
-- The start of the kernel from an init file: kernel/src/parse_init.c, then kernel/src/main.c.
use raccoon_exok.Common.{
  ℕ, zero, suc, ◌+◌, ◌-◌, ◌%◌, ◌^◌, ◌<◌, ◌≤◌, ◌≡◌, ◌∙◌, ap, sym, false, some, List, [], ◌∷◌, ◌++◌,
  length, get_elem?, if◌then◌else◌, arith,
}
use raccoon_exok.Common.Limits.{max_core}
use raccoon_exok.Common.Run.{ok}
use raccoon_exok.Memory.{Memory, StrAt}
use raccoon_exok.Memory.Text.{codes}
use raccoon_exok.Numbers.Read.{decimal_from, AllDecimal}
use raccoon_exok.Strings.Equality.{same_text}
use raccoon_exok.Parse.{Init, to_lines, parse_file}
use raccoon_exok.Parse.Programs.{EntriesAt, ProgramsAt, StrAt-agree, parse_file-ProgramsAt}
use raccoon_exok.Main.{launches, halts, kernel_main}
use raccoon_exok.Main.Names.{Named, is_hang, is_woken, Distinct}
use raccoon_exok.Main.Awoken.{kernel_main-awakes}

-- The name in line `i`.
abbrev pub name_of : List (List ℕ × List ℕ) → ℕ → List ℕ
name_of [] i = []
name_of ((number, name) ∷ es) zero = name
name_of ((number, name) ∷ es) (suc i) = name_of es i

ProgramsAt-name_of :
    (mem : Memory) (fuel k : ℕ) (init : Init) (es : List (List ℕ × List ℕ)) (i : ℕ)
    → ProgramsAt mem fuel init k es
    → i < length es
    → (p : ℕ) × (get_elem? init.programs (k + i) ≡ some p)
      × StrAt mem p (name_of es i)
      × (length (name_of es i) < fuel)
ProgramsAt-name_of mem fuel k init [] i programs h = absurd (omega arith)
ProgramsAt-name_of mem fuel k init ((number, name) ∷ es) zero (p, at, text, short, others) h = (
  p,
  ap (λ (j : ℕ). get_elem? init.programs j) {x = k + 0} {y = k} (omega arith) ∙ at,
  text,
  short,
)
ProgramsAt-name_of mem fuel k init ((number, name) ∷ es) (suc i) (p, at, text, short, others) h =
    let (q, at_q, text_q, short_q) =
      ProgramsAt-name_of mem fuel (k + 1) init es i others (omega arith) in
    (
      q,
      ap (λ (j : ℕ). get_elem? init.programs j) {x = k + suc i} {y = k + 1 + i} (omega arith)
          ∙ at_q,
      text_q,
      short_q,
    )

-- The init file opens with "CORES " and the number of its lines, at most 32 and not more than there
-- are cores; it has one line for each core, and but for "HANG" their programs differ. Then the init
-- file is parsed, and `kernel_main` on core 0 awakes exactly the other cores whose line does not
-- name "HANG", and ends by launching the program of line 0, or by halting if that is "HANG". "HANG" stands
-- below the file.
pub init_file-awakes :
    (cores hang begin end fuel rounds entry_launch core_number : ℕ) (mem mem1 : Memory)
    (number : List ℕ) (es : List (List ℕ × List ℕ)) (addresses : ℕ → ℕ)
    → to_lines (end - begin) begin mem ≡ ok mem1
    → StrAt mem1 cores (codes "CORES ")
    → StrAt mem1 begin (codes "CORES " ++ number)
    → AllDecimal number
    → length number < fuel
    → begin + 6 + length number < end
    → EntriesAt mem1 fuel end (begin + 6 + length number + 1) 0 es
    → length es ≤ max_core
    → length es < rounds
    → decimal_from 0 number % 2 ^ 32 ≡ length es
    → StrAt mem1 hang (codes "HANG")
    → hang + 4 < begin
    → length es ≤ core_number
    → 0 < length es
    → Distinct (name_of es) (length es)
    → ((k : ℕ)
        → 1 ≤ k
        → k < length es
        → is_hang (name_of es 0) ≡ false
        → same_text (name_of es k) (name_of es 0) ≡ false)
    → (init : Init) × (mem' : Memory) × (addresses' : ℕ → ℕ) × (parse_file cores begin end fuel
          rounds mem
        ≡ ok (init, mem'))
      × (kernel_main mem' fuel hang entry_launch init 0 core_number addresses
          ≡ ok (addresses', if is_hang (name_of es 0) then halts else launches))
      × ((j : ℕ)
          → addresses' j
            ≡ (if is_woken (name_of es) 0 (length es) j then entry_launch else addresses j))
init_file-awakes cores hang begin end fuel rounds entry_launch core_number mem mem1 number es
      addresses lined literal opens digits short inside entries room h count hang_text below enough
      some_core distinct differ =
    let (init, mem', runs, same, kept, programs) =
      parse_file-ProgramsAt cores begin end fuel rounds mem mem1 number es lined literal opens
        digits short inside entries room h in
    let named : Named mem' fuel init (length es) (name_of es) = λ i a.
      let (p, at, text, small) = ProgramsAt-name_of mem' fuel 0 init es i programs a in
      (
        p,
        ap (λ (j : ℕ). get_elem? init.programs j) {x = i} {y = 0 + i} (omega arith) ∙ at,
        text,
        small,
      ) in
    let (addresses', awakes, at) =
      kernel_main-awakes mem' fuel hang entry_launch init (length es) (name_of es) named
        (StrAt-agree mem1 mem' hang (codes "HANG") (λ q a b. kept q (omega arith)) hang_text)
        core_number addresses (sym (same ∙ count)) enough some_core distinct differ in
    (init, mem', addresses', runs, awakes, at)
