-- ===== src/Parse.antt =====
-- kernel/src/parse_init.c: the text file that names the program of each core. `to_lines` is that of
-- kernel/src/parse_capability_map.c; Sections has the rest of that file.
pub mod Lines
pub mod Entries
pub mod Programs
pub mod Sections
mod Tests
use raccoon_exok.Common.{
  ℕ, zero, suc, ◌+◌, ◌-◌, ◌==◌, ltb, not, ◌||◌, if◌then◌else◌, List, [], ◌∷◌, length, set,
  replicate, Option, none, some, get_elem?,
}
use raccoon_exok.Common.Limits.{max_core}
use raccoon_exok.Common.Run.{Run, ok, halted, fault, out_of_fuel, ◌>>=◌}
use raccoon_exok.Memory.{Memory, load, put}
use raccoon_exok.Strings.{strncmp}
use raccoon_exok.Numbers.{atou}
use raccoon_exok.Initfs.{Initfs, File, get_file}

-- `struct init`; a program is a pointer to its name, 0 without one.
pub record Init : Type 0 where
  pub required_cores : ℕ
  pub programs : List ℕ

-- Each new line from `ptr` on becomes a 0; `rounds` bytes are left to the end of the file.
unfoldable pub to_lines : (rounds ptr : ℕ) → Memory → Run Memory
unfolding load put
to_lines zero ptr mem = ok mem
to_lines (suc rounds) ptr mem = do
  c ← load mem ptr
  let ended = put mem ptr 0 >>= to_lines rounds (ptr + 1)
  let same = to_lines rounds (ptr + 1) mem
  if c == 10 then ended else same

-- The place behind the next 0, or 0 for `NULL`; `rounds` bytes are left to the end of the file.
unfoldable pub get_next_line : (rounds ptr : ℕ) → Memory → Run ℕ
unfolding load
get_next_line zero ptr mem = ok 0
get_next_line (suc rounds) ptr mem = do
  c ← load mem ptr
  let rest = get_next_line rounds (ptr + 1) mem
  if c == 0 then ok (ptr + 1) else rest

-- `to_return.programs[index] = ptr + 1;` without a test of the index.
abbrev pub store_program : (index program : ℕ) → Init → Run Init
store_program index program init =
    if ltb index max_core
    then ok (record init { programs = set init.programs index program })
    else fault

-- An entry at `ptr`, in a file up to `end`: the place of the next line, and what changed.
unfoldable pub parse_entry : (end fuel ptr : ℕ) → Init → Memory → Run (ℕ × Init × Memory)
unfolding put
parse_entry end fuel ptr init mem = do
  (index, p) ← atou mem fuel 0 ptr
  init ← store_program index (p + 1) init
  mem ← put mem p 0
  next ← get_next_line (end - (p + 1)) (p + 1) mem
  ok (next, init, mem)

-- The loop over the lines of a file up to `end`, and `fuel` for each number.
unfoldable pub parse_loop : (end fuel rounds ptr : ℕ) → Init → Memory → Run (Init × Memory)
unfolding load
parse_loop end fuel zero ptr init mem = out_of_fuel
parse_loop end fuel (suc rounds) ptr init mem =
    if not (ltb ptr end) || ptr == 0 then ok (init, mem) else do
      c ← load mem ptr
      let empty =
          get_next_line (end - ptr) ptr mem >>= λ next. parse_loop end fuel rounds next init mem
      let entry = parse_entry end fuel ptr init mem >>= λ (next, init, mem).
          parse_loop end fuel rounds next init mem
      if c == 0 then empty else entry

-- The file from `begin` to `end`; `cores` is the address of "CORES ". More rounds than the file has
-- bytes are enough.
unfoldable pub parse_file : (cores begin end fuel rounds : ℕ) → Memory → Run (Init × Memory)
parse_file cores begin end fuel rounds mem = do
  mem ← to_lines (end - begin) begin mem
  differs ← strncmp mem begin cores 6
  let parsed = atou mem fuel 0 (begin + 6) >>= λ (required_cores, p).
      get_next_line (end - (begin + 6)) (begin + 6) mem >>= λ ptr.
      parse_loop end fuel rounds ptr
        (record { required_cores = required_cores; programs = replicate max_core 0 }) mem
  if differs == 0 then parsed else halted

-- The file with the name at `filename`; without one the code panics.
unfoldable pub parse_init : (cores filename fuel rounds : ℕ) → Initfs → Run (Init × Memory)
parse_init cores filename fuel rounds s = do
  file ← get_file fuel filename s
  elim file [
    | none ↦ halted
    | some i ↦ elim (get_elem? s.files i) [
      | none ↦ fault
      | some f ↦ parse_file cores f.begin f.end fuel rounds s.mem
    ]
  ]
