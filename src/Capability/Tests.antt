-- ===== src/Capability/Tests.antt =====
-- A table of two capabilities, tested and used as an instance.
use raccoon_exok.Common.{ℕ, ◌≡◌, ◌≢◌, refl, some, List, [], ◌∷◌, arith, if◌then◌else◌, not}
use raccoon_exok.Common.Run.{ok, fault, ◌>>=◌}
use raccoon_exok.Common.Int.{ℤ}
use raccoon_exok.Memory.{Memory, StrAt, load}
use raccoon_exok.Memory.Text.{placed}
use raccoon_exok.Strings.{second_strcmp, my_strcmp, strcmp}
use raccoon_exok.Strings.Equality.{same_text, is_zero, comparisons_agree}
use raccoon_exok.Capability.{Capability, no_core, get_capability, release_capability}
use raccoon_exok.Capability.Lookup.{Named, holder}
use raccoon_exok.Capability.Owners.{
  get_capability-exclusive, get_capability-refused, release-get_capability,
}
use raccoon_exok.Capability.Record.{InterfaceRange}
use raccoon_exok.Capability.Race.{Entry, Reach, unheld, returned, two_holders}

-- The names "ab" at 100 and "c" at 103, and a request for "c" at 105.
abbrev mem : Memory
mem = placed 100 (97 ∷ 98 ∷ 0 ∷ 99 ∷ 0 ∷ 99 ∷ 0 ∷ [])

abbrev names : List (List ℕ)
names = (97 ∷ 98 ∷ []) ∷ (99 ∷ []) ∷ []

abbrev capability : ℕ → ℕ → Capability
capability name core = record {
  name = name;
  begin_addr = 0;
  end_addr = 0x1000;
  io_perms = 3;
  core_number = core;
}

-- The first is held by core 2, the second is free.
abbrev table : List Capability
table = capability 100 2 ∷ capability 103 no_core ∷ []

ab-StrAt : StrAt mem 100 (97 ∷ 98 ∷ [])
ab-StrAt = (refl, omega arith, omega arith, (refl, omega arith, omega arith, refl))

c-StrAt : StrAt mem 103 (99 ∷ [])
c-StrAt = (refl, omega arith, omega arith, refl)

asked-StrAt : StrAt mem 105 (99 ∷ [])
asked-StrAt = (refl, omega arith, omega arith, refl)

table-Named : Named mem 10 table names
table-Named = (ab-StrAt, omega arith, (c-StrAt, omega arith, tt))

comparisons_agree_example :
    (z : ℤ) × (second_strcmp mem 10 103 105 ≡ ok z)
    × (is_zero z ≡ same_text (99 ∷ []) (99 ∷ []))
    × (my_strcmp mem 10 103 105 ≡ ok (if same_text (99 ∷ []) (99 ∷ []) then 0 else 1))
    × (strcmp mem 10 103 105 ≡ ok (not (same_text (99 ∷ []) (99 ∷ []))))
comparisons_agree_example =
    comparisons_agree mem 10 103 105 (99 ∷ []) (99 ∷ []) c-StrAt asked-StrAt (omega arith)

get_capability-exclusive_example :
    (t : List Capability) × (get_capability mem 10 105 7 table ≡ ok (1, t))
    × Named mem 10 t names
    × (holder (99 ∷ []) names t ≡ some 7)
    × ((k : List ℕ) → k ≢ 99 ∷ [] → holder k names t ≡ holder k names table)
    × ((other : ℕ) → get_capability mem 10 105 other t ≡ ok (0, t))
unfolding holder same_text
get_capability-exclusive_example =
    get_capability-exclusive mem 10 105 (99 ∷ []) names table asked-StrAt table-Named 7
      (omega arith) refl

get_capability-refused_example : get_capability mem 10 100 7 table ≡ ok (0, table)
unfolding holder same_text
get_capability-refused_example =
    get_capability-refused mem 10 100 (97 ∷ 98 ∷ []) names table ab-StrAt table-Named 7 (λ h. cc)

release-get_capability_example :
    (get_capability mem 10 105 7 table >>= λ (r, t). release_capability mem 10 105 7 t)
    ≡ ok (1, table)
unfolding holder same_text
release-get_capability_example =
    release-get_capability mem 10 105 (99 ∷ []) names table asked-StrAt table-Named 7 refl

two_holders_example :
    (s : Entry) × Reach unheld s
    × (s.pc 1 ≡ returned 1)
    × (s.pc 2 ≡ returned 1)
    × (s.core_number ≡ 2)
two_holders_example = two_holders 1 2 (omega arith)

-- A table entry that no line of the file has filled has no name: the search reads address 0.
null_name : get_capability mem 10 105 7 (capability 0 no_core ∷ []) ≡ fault
unfolding get_capability second_strcmp load
null_name = refl

abbrev screen : InterfaceRange
screen = record { begin = 0xe0000000; end = 0xe0400000 }
