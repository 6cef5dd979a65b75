-- ===== src/Parse/Programs.antt =====
-- The lines of a whole init file, kernel/src/parse_init.c.
use raccoon_exok.Common.{
  ℕ, zero, suc, ◌+◌, ◌-◌, ◌%◌, ◌^◌, ◌≤◌, ◌<◌, ◌≡◌, refl, ap, ◌∙◌, ◌==◌, List, [], ◌∷◌, ◌++◌, length,
  set, replicate, get_elem?, some, false, arith, get_elem?-set_self, get_elem?-set_ne, length-set,
}
use raccoon_exok.Common.Limits.{max_core}
use raccoon_exok.Common.Run.{ok, ◌>>=◌}
use raccoon_exok.Memory.{Memory, load, store, StrAt}
use raccoon_exok.Memory.Text.{codes}
use raccoon_exok.Numbers.Read.{decimal_from, AllDecimal, atou-decimal}
use raccoon_exok.Parse.{Init, to_lines, get_next_line, parse_entry, parse_loop, parse_file}
use raccoon_exok.Parse.Sections.Text.{StrAt-suffix, strncmp-append}
use raccoon_exok.Parse.Entries.{TextAt, parse_entry-program}

-- The lines of the cores from `k` on stand one behind the other from `p` to `end`: the number of the
-- core, a space, and the name of its program, ended by 0.
abbrev pub EntriesAt : Memory → (fuel end p k : ℕ) → List (List ℕ × List ℕ) → Type 0
EntriesAt mem fuel end p k [] = p ≡ end
EntriesAt mem fuel end p k ((number, name) ∷ es) =
    (0 < p)
    × (p + length number + length name + 1 < end)
    × TextAt mem p number 32
    × AllDecimal number
    × (decimal_from 0 number % 2 ^ 32 ≡ k)
    × (length number < fuel)
    × StrAt mem (p + length number + 1) name
    × (length name < fuel)
    × EntriesAt mem fuel end (p + length number + length name + 2) (k + 1) es

-- The programs of the cores from `k` on have these names.
abbrev pub ProgramsAt : Memory → (fuel : ℕ) → Init → (k : ℕ) → List (List ℕ × List ℕ) → Type 0
ProgramsAt mem fuel init k [] = Unit
ProgramsAt mem fuel init k ((number, name) ∷ es) =
    (ptr : ℕ) × (get_elem? init.programs k ≡ some ptr)
    × StrAt mem ptr name
    × (length name < fuel)
    × ProgramsAt mem fuel init (k + 1) es

pub StrAt-agree :
    (mem mem' : Memory) (p : ℕ) (s : List ℕ)
    → ((q : ℕ) → p ≤ q → q ≤ p + length s → mem' q ≡ mem q)
    → StrAt mem p s
    → StrAt mem' p s
StrAt-agree mem mem' p [] agree at = agree p (omega arith) (omega arith) ∙ at
StrAt-agree mem mem' p (c ∷ s) agree (here, nz, small, at) = (
  agree p (omega arith) (omega arith) ∙ here,
  nz,
  small,
  StrAt-agree mem mem' (p + 1) s (λ q a b. agree q (omega arith) (omega arith)) at,
)

TextAt-agree :
    (mem mem' : Memory) (p : ℕ) (s : List ℕ) (d : ℕ)
    → ((q : ℕ) → p ≤ q → mem' q ≡ mem q)
    → TextAt mem p s d
    → TextAt mem' p s d
TextAt-agree mem mem' p [] d agree at = agree p (omega arith) ∙ at
TextAt-agree mem mem' p (c ∷ s) d agree (here, at) = (
  agree p (omega arith) ∙ here,
  TextAt-agree mem mem' (p + 1) s d (λ q a. agree q (omega arith)) at,
)

EntriesAt-agree :
    (mem mem' : Memory) (fuel end p k : ℕ) (es : List (List ℕ × List ℕ))
    → ((q : ℕ) → p ≤ q → mem' q ≡ mem q)
    → EntriesAt mem fuel end p k es
    → EntriesAt mem' fuel end p k es
EntriesAt-agree mem mem' fuel end p k [] agree at = at
EntriesAt-agree mem mem' fuel end p k ((number, name) ∷ es) agree
      (pos, inside, text, digits, value, short, name_at, short', rest) =
    (
      pos,
      inside,
      TextAt-agree mem mem' p number 32 agree text,
      digits,
      value,
      short,
      StrAt-agree mem mem' (p + length number + 1) name (λ q a b. agree q (omega arith)) name_at,
      short',
      EntriesAt-agree mem mem' fuel end (p + length number + length name + 2) (k + 1) es
          (λ q a. agree q (omega arith)) rest,
    )

get_next_line-StrAt :
    (mem : Memory) (rounds p : ℕ) (s : List ℕ)
    → StrAt mem p s
    → length s < rounds
    → get_next_line rounds p mem ≡ ok (p + length s + 1)
unfolding get_next_line load
get_next_line-StrAt mem zero p s at h = absurd (omega arith)
get_next_line-StrAt mem (suc rounds) p [] at h = ground (arith, at)
get_next_line-StrAt mem (suc rounds) p (c ∷ s) (here, nz, small, at) h =
    ground (arith, here, get_next_line-StrAt mem rounds (p + 1) s at (omega arith))

-- The first byte of a line is not 0.
TextAt-first :
    (mem : Memory) (p : ℕ) (number : List ℕ)
    → TextAt mem p number 32
    → AllDecimal number
    → (c : ℕ) × (mem p ≡ some c) × ((c == 0) ≡ false)
TextAt-first mem p [] at digits = (32, at, refl)
TextAt-first mem p (c ∷ number) (here, at) (digit, digits) = (c, here, ground (arith, digit))

parse_loop-step :
    (end fuel rounds p c next : ℕ) (init init' : Init) (mem mem' : Memory)
    → p < end
    → 0 < p
    → mem p ≡ some c
    → (c == 0) ≡ false
    → parse_entry end fuel p init mem ≡ ok (next, init', mem')
    → parse_loop end fuel (suc rounds) p init mem ≡ parse_loop end fuel rounds next init' mem'
unfolding parse_loop load
parse_loop-step end fuel rounds p c next init init' mem mem' h pos here nonzero entry =
    ground (arith, here, nonzero, entry)

parse_loop-end :
    (end fuel rounds : ℕ) (init : Init) (mem : Memory)
    → parse_loop end fuel (suc rounds) end init mem ≡ ok (init, mem)
unfolding parse_loop
parse_loop-end end fuel rounds init mem = ground arith

parse_entry-line :
    (mem : Memory) (end fuel p k : ℕ) (number name : List ℕ) (init : Init)
    → p + length number + length name + 1 < end
    → TextAt mem p number 32
    → AllDecimal number
    → decimal_from 0 number % 2 ^ 32 ≡ k
    → length number < fuel
    → StrAt mem (p + length number + 1) name
    → k < max_core
    → parse_entry end fuel p init mem
      ≡ ok (
        p + length number + length name + 2,
        record init { programs = set init.programs k (p + length number + 1) },
        store mem (p + length number) 0,
      )
parse_entry-line mem end fuel p k number name init inside text digits value short name_at small =
    let e = p + length number in
    let mem1 : Memory = store mem e 0 in
    let (runs, faults) = parse_entry-program mem 32 refl end fuel p number init text digits short in
    let next : get_next_line (end - (e + 1)) (e + 1) mem1 ≡ ok (e + 1 + length name + 1) =
      get_next_line-StrAt mem1 (end - (e + 1)) (e + 1) name
        (StrAt-agree mem mem1 (e + 1) name (λ q a b. ground arith) name_at) (omega arith) in
    runs (omega arith)
    ∙ ap
        (λ r. r >>= λ next. ok (
          next,
          record init { programs = set init.programs (decimal_from 0 number % 2 ^ 32) (e + 1) },
          mem1,
        ))
        next
    ∙ ap
        (λ (i : ℕ).
          ok
            (e + 1 + length name + 1, record init { programs = set init.programs i (e + 1) }, mem1))
        value
    ∙ ap (λ (q : ℕ). ok (q, record init { programs = set init.programs k (e + 1) }, mem1))
        (omega arith)

parse_loop-EntriesAt :
    (end fuel rounds p k : ℕ) (es : List (List ℕ × List ℕ)) (init : Init) (mem : Memory)
    → EntriesAt mem fuel end p k es
    → k + length es ≤ max_core
    → length init.programs ≡ max_core
    → length es < rounds
    → (init' : Init) × (mem' : Memory) × (parse_loop end fuel rounds p init mem ≡ ok (init', mem'))
      × (init'.required_cores ≡ init.required_cores)
      × ((j : ℕ) → j < k → get_elem? init'.programs j ≡ get_elem? init.programs j)
      × ((q : ℕ) → q < p → mem' q ≡ mem q)
      × ProgramsAt mem' fuel init' k es
parse_loop-EntriesAt end fuel zero p k es init mem entries room full h = absurd (omega arith)
parse_loop-EntriesAt end fuel (suc rounds) p k [] init mem entries room full h = (
  init,
  mem,
  ap (λ (q : ℕ). parse_loop end fuel (suc rounds) q init mem) entries
      ∙ parse_loop-end end fuel rounds init mem,
  refl,
  λ j below. refl,
  λ q below. refl,
  tt,
)
parse_loop-EntriesAt end fuel (suc rounds) p k ((number, name) ∷ es) init mem
      (pos, inside, text, digits, value, short, name_at, short', rest) room full h =
    let e = p + length number in
    let mem1 : Memory = store mem e 0 in
    let init1 : Init = record init { programs = set init.programs k (e + 1) } in
    let (c, here, nonzero) = TextAt-first mem p number text digits in
    let (init', mem', runs, same, kept, below, others) =
      parse_loop-EntriesAt end fuel rounds (e + length name + 2) (k + 1) es init1 mem1
        (EntriesAt-agree mem mem1 fuel end (e + length name + 2) (k + 1) es (λ q a. ground arith)
          rest)
        (omega arith) (length-set init.programs k (e + 1) ∙ full) (omega arith) in
    (
      init',
      mem',
      parse_loop-step end fuel rounds p c (e + length name + 2) init init1 mem mem1 (omega arith)
            pos here nonzero
            (parse_entry-line mem end fuel p k number name init inside text digits value short
              name_at (omega arith))
          ∙ runs,
      same,
      λ j a. kept j (omega arith) ∙ get_elem?-set_ne init.programs k j (e + 1) (omega arith),
      λ q a. below q (omega arith) ∙ ground arith,
      (
        e + 1,
        kept k (omega arith) ∙ get_elem?-set_self init.programs k (e + 1) (omega arith),
        StrAt-agree mem mem' (e + 1) name (λ q a b. below q (omega arith) ∙ ground arith) name_at,
        short',
        others,
      ),
    )

-- On a file that, with its new lines ended by 0, opens with "CORES " and a number, and goes on with one
-- line for each core from 0 on, at most 32, `parse_init` ends behind the look-up of the file, with
-- fuel above the length of each number and name and more rounds than lines: the number of required
-- cores is the first one modulo `2 ^ 32`, the program of each core is the name in its line, which
-- stands in the memory as a text of its own, and nothing below the file is written.
pub parse_file-ProgramsAt :
    (cores begin end fuel rounds : ℕ) (mem mem1 : Memory) (number : List ℕ)
    (es : List (List ℕ × List ℕ))
    → to_lines (end - begin) begin mem ≡ ok mem1
    → StrAt mem1 cores (codes "CORES ")
    → StrAt mem1 begin (codes "CORES " ++ number)
    → AllDecimal number
    → length number < fuel
    → begin + 6 + length number < end
    → EntriesAt mem1 fuel end (begin + 6 + length number + 1) 0 es
    → length es ≤ max_core
    → length es < rounds
    → (init : Init) × (mem' : Memory) × (parse_file cores begin end fuel rounds mem
        ≡ ok (init, mem'))
      × (init.required_cores ≡ decimal_from 0 number % 2 ^ 32)
      × ((q : ℕ) → q < begin → mem' q ≡ mem1 q)
      × ProgramsAt mem' fuel init 0 es
unfolding parse_file
parse_file-ProgramsAt cores begin end fuel rounds mem mem1 number es lined literal opens digits
      short inside entries room h =
    let number_at = StrAt-suffix mem1 begin (codes "CORES ") number opens in
    let start : Init = record {
      required_cores = decimal_from 0 number % 2 ^ 32;
      programs = replicate max_core 0;
    } in
    let (init, mem', runs, same, kept, below, programs) =
      parse_loop-EntriesAt end fuel rounds (begin + 6 + length number + 1) 0 es start mem1 entries
        (omega arith) refl h in
    (
      init,
      mem',
      ground (
        arith,
        lined,
        strncmp-append mem1 begin cores (codes "CORES ") number opens literal,
        atou-decimal mem1 fuel 0 (begin + 6) number number_at digits short (omega arith),
        get_next_line-StrAt mem1 (end - (begin + 6)) (begin + 6) number number_at (omega arith),
        runs,
      ),
      same,
      λ q a. below q (omega arith),
      programs,
    )
