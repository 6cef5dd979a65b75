-- ===== src/Parse/Sections.antt =====
-- The capability file, kernel/src/parse_capability_map.c: the section of a system and the fields of
-- its capabilities.
mod Tests
pub mod Text
pub mod Lines
pub mod Address
pub mod Perms
pub mod Fields
pub mod Loops
pub mod Search
pub mod Section
pub mod Recorded
use raccoon_exok.Common.{
  ℕ, zero, suc, ◌+◌, ◌-◌, Bool, true, false, not, ◌&&◌, ◌||◌, Option, none, some, List, [], ◌∷◌,
  length, bit_or, set, get_elem?, ltb, leb, ◌==◌, if◌then◌else◌,
}
use raccoon_exok.Common.Run.{Run, ok, halted, fault, out_of_fuel, ◌>>=◌}
use raccoon_exok.Memory.{Memory, load}
use raccoon_exok.Memory.Text.{codes}
use raccoon_exok.Strings.{strlen, strncmp}
use raccoon_exok.Numbers.{between, strtoul}
use raccoon_exok.Capability.{Capability}
use raccoon_exok.Initfs.{Initfs, get_file}
use raccoon_exok.Parse.{to_lines}

abbrev pub io_read : ℕ
io_read = 1

abbrev pub io_write : ℕ
io_write = 2

-- `!strncmp(ptr, literal, n)` for a literal whose first `n` bytes are the list.
unfoldable pub starts_with : Memory → (ptr : ℕ) → List ℕ → Run Bool
unfolding load
starts_with mem ptr [] = ok true
starts_with mem ptr (c ∷ rest) = do
  b ← load mem ptr
  let others = starts_with mem (ptr + 1) rest
  if b == c then others else ok false

-- `while (test(*ptr)) ptr++;`
unfoldable pub skip_while : (ℕ → Bool) → Memory → (fuel ptr : ℕ) → Run ℕ
unfolding load
skip_while test mem zero ptr = out_of_fuel
skip_while test mem (suc fuel) ptr = do
  c ← load mem ptr
  let rest = skip_while test mem fuel (ptr + 1)
  if test c then rest else ok ptr

abbrev pub is_hex : ℕ → Bool
is_hex c = between 48 57 c || (between 97 102 c || between 65 70 c)

-- ' ', '\t', ':' and '-'.
abbrev pub is_separator : ℕ → Bool
is_separator c = c == 32 || (c == 9 || (c == 58 || c == 45))

abbrev pub is_inside : ℕ → Bool
is_inside c = not (c == 0)

-- The search for "\0END" with `rounds` bytes left to the end of the file: `begin` and `end`.
unfoldable pub section_end : Memory → (begin rounds ptr : ℕ) → Run (ℕ × ℕ)
section_end mem begin zero ptr = halted
section_end mem begin (suc rounds) ptr = do
  here ← starts_with mem ptr (0 ∷ codes "END")
  let rest = section_end mem begin rounds (ptr + 1)
  if here then ok (begin, ptr) else rest

-- `struct pair` of the file from `begin` to `end`; (0, 0) if its first line is not the section's.
unfoldable pub get_section : Memory → (fuel begin end section_name : ℕ) → Run (ℕ × ℕ)
get_section mem fuel begin end section_name = do
  opens ← starts_with mem begin (codes "BEGIN ")
  let named = strlen mem fuel section_name 0 >>= λ n.
      strncmp mem (begin + 6) section_name n >>= λ differs.
      let body = skip_while is_inside mem fuel (begin + 6 + n - 1) >>= λ last.
      let ptr = last + 1 in
      if leb end ptr then ok (0, 0) else section_end mem ptr (end - ptr) ptr in
      if differs == 0 then body else ok (0, 0)
  if opens then named else ok (0, 0)

-- `caps[i].field = …`
abbrev pub modify : List Capability → ℕ → (Capability → Capability) → Run (List Capability)
modify caps i f = elim (get_elem? caps i) [ none ↦ fault | some c ↦ ok (set caps i (f c)) ]

-- `current_index`, which no step changes.
module _ (mem : Memory) (fuel current_index : ℕ) where
  -- The line "    ADDRESS …" from behind these 12 bytes: the place where the reading goes on, which is
  -- the end of the first number.
  unfoldable pub parse_address : (ptr : ℕ) → List Capability → Run (ℕ × List Capability)
  parse_address ptr caps = do
    (begin_addr, p) ← strtoul mem 16 fuel 0 ptr
    caps ← modify caps current_index (λ c. record c { begin_addr = begin_addr })
    str ← skip_while is_hex mem fuel p
    q ← skip_while is_separator mem fuel str
    (end_addr, r) ← strtoul mem 16 fuel 0 q
    caps ← modify caps current_index (λ c. record c { end_addr = end_addr })
    str ← skip_while is_hex mem fuel str
    ok (str, caps)

  -- The permissions at `ptr` and the place behind them.
  unfoldable pub read_perms : (ptr : ℕ) → Run (ℕ × ℕ)
  read_perms ptr = do
    rw ← starts_with mem ptr (codes "rw")
    let second = starts_with mem ptr (codes "wr") >>= λ wr.
        let third = starts_with mem ptr (codes "r") >>= λ r.
        let fourth =
          starts_with mem ptr (codes "w") >>= λ w. if w then ok (io_write, ptr + 1) else halted in
        if r then ok (io_read, ptr + 1) else fourth in
        if wr then ok (bit_or io_read io_write, ptr + 2) else third
    if rw then ok (bit_or io_read io_write, ptr + 2) else second

  unfoldable pub parse_ioperms : (ptr : ℕ) → List Capability → Run (ℕ × List Capability)
  unfolding load
  parse_ioperms ptr caps = do
    (perms, p) ← read_perms ptr
    caps ← modify caps current_index (λ c. record c { io_perms = perms })
    p ← skip_while is_separator mem fuel p
    c ← load mem p
    if c == 0 then ok (p, caps) else halted

  -- One round of the inner loop.
  unfoldable pub parse_field : (ptr : ℕ) → List Capability → Run (ℕ × List Capability)
  parse_field ptr caps = do
    is_address ← starts_with mem ptr (codes "    ADDRESS ")
    (ptr, caps) ← if is_address then parse_address (ptr + 12) caps else ok (ptr, caps)
    is_ioperms ← starts_with mem ptr (codes "    IOperms ")
    (ptr, caps) ← if is_ioperms then parse_ioperms (ptr + 12) caps else ok (ptr, caps)
    ptr ← skip_while is_inside mem fuel ptr
    ok (ptr + 1, caps)

  -- The inner loop, up to the end of the section.
  unfoldable pub field_loop : (end rounds ptr : ℕ) → List Capability → Run (ℕ × List Capability)
  field_loop end zero ptr caps = out_of_fuel
  field_loop end (suc rounds) ptr caps =
      if ltb ptr end
      then (parse_field ptr caps >>= λ (ptr, caps). field_loop end rounds ptr caps)
      else ok (ptr, caps)

  -- A capability: "CAPABILITY" and the rest of the section.
  unfoldable pub parse_capability :
      (end max rounds ptr : ℕ) → List Capability → Run (ℕ × List Capability)
  parse_capability end max rounds ptr caps = if leb max current_index then halted else do
    caps ← modify caps current_index (λ c. record c { name = ptr + 10 + 1 })
    ptr ← skip_while is_inside mem fuel (ptr + 10)
    field_loop end rounds (ptr + 1) caps

  unfoldable pub capability_loop :
      (end max rounds fields ptr : ℕ) → List Capability → Run (List Capability)
  capability_loop end max zero fields ptr caps = out_of_fuel
  capability_loop end max (suc rounds) fields ptr caps =
      if ltb ptr end
      then (starts_with mem ptr (codes "CAPABILITY") >>= λ here.
          (if here then parse_capability end max fields ptr caps else ok (ptr + 1, caps))
          >>= λ (ptr, caps). capability_loop end max rounds fields ptr caps)
      else ok caps

-- The file from `begin` to `end`; `fuel` for each scan and `rounds` for each loop over the section.
unfoldable pub fill_capabilities :
    (fuel rounds begin end max current_system : ℕ)
    → Memory
    → List Capability
    → Run (List Capability × Memory)
fill_capabilities fuel rounds begin end max current_system mem caps = do
  mem ← to_lines (end - begin) begin mem
  (from, to) ← get_section mem fuel begin end current_system
  if from == to
      then halted
      else (capability_loop mem fuel 0 to max rounds rounds from caps >>= λ caps. ok (caps, mem))

-- `filename` is the name of the capability file.
unfoldable pub init_capabilities :
    (fuel rounds filename max current_system : ℕ)
    → Initfs
    → List Capability
    → Run (List Capability × Memory)
init_capabilities fuel rounds filename max current_system s caps = do
  file ← get_file fuel filename s
  elim file [
    | none ↦ halted
    | some i ↦ elim (get_elem? s.files i) [
      | none ↦ fault
      | some f ↦ fill_capabilities fuel rounds f.begin f.end max current_system s.mem caps
    ]
  ]
