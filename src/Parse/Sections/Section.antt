-- ===== src/Parse/Sections/Section.antt =====
-- A whole section of the capability file, kernel/src/parse_capability_map.c.
use raccoon_exok.Common.{
  ℕ, zero, suc, ◌+◌, ◌-◌, ◌<◌, ◌≡◌, true, some, List, ◌++◌, length, arith, set, get_elem?,
}
use raccoon_exok.Common.Run.{ok}
use raccoon_exok.Memory.{Memory, StrAt}
use raccoon_exok.Memory.Text.{codes}
use raccoon_exok.Capability.{Capability}
use raccoon_exok.Parse.{to_lines}
use raccoon_exok.Parse.Sections.{fill_capabilities}
use raccoon_exok.Parse.Sections.Text.{is_prefix}
use raccoon_exok.Parse.Sections.Lines.{Line}
use raccoon_exok.Parse.Sections.Loops.{LinesAt, capability_loop-LinesAt}
use raccoon_exok.Parse.Sections.Search.{get_section-LinesAt}

-- On a file that, with its new lines ended by 0, opens with "BEGIN" and the name of the system, goes
-- on with a capability and its lines, and ends the section by a line that starts with "END",
-- `fill_capabilities` ends with fuel above the length of each line and more rounds than there are
-- lines, two at least. The first entry gets the name behind "CAPABILITY", and of its addresses and permissions
-- those of the last lines that give them; every other entry is as before. The lines are of three
-- kinds: "    ADDRESS " with two numbers of hexadecimal digits, the second one and the separators
-- between them not empty; "    IOperms " with permissions and nothing but separators behind them; and
-- lines that start with neither of these and not with "END", which change nothing: also a later
-- "CAPABILITY" line is one of these, and fills no entry. The table has an entry 0 and room for one.
pub fill_capabilities-first :
    (fuel rounds begin end e max section_name : ℕ) (mem mem' : Memory) (sys tail name last : List ℕ)
    (ls : List Line) (caps : List Capability) (c c' : Capability)
    → to_lines (end - begin) begin mem ≡ ok mem'
    → StrAt mem' section_name sys
    → StrAt mem' begin (codes "BEGIN " ++ (sys ++ tail))
    → length (codes "BEGIN " ++ (sys ++ tail)) < fuel
    → (let from = begin + length (codes "BEGIN " ++ (sys ++ tail)) + 1 in
        StrAt mem' from (codes "CAPABILITY" ++ name)
        → length (codes "CAPABILITY" ++ name) < fuel
        → LinesAt mem' fuel e
            (from + length (codes "CAPABILITY" ++ name) + 1)
            ls
            (record c { name = from + 10 + 1 })
            c'
        → StrAt mem' (e + 1) last
        → is_prefix (codes "END") last ≡ true
        → from < e
        → e < end
        → 0 < max
        → length ls < rounds
        → 1 < rounds
        → get_elem? caps 0 ≡ some c
        → fill_capabilities fuel rounds begin end max section_name mem caps
          ≡ ok (set caps 0 c', mem'))
unfolding fill_capabilities
fill_capabilities-first fuel zero begin end e max section_name mem mem' sys tail name last ls caps c
      c' lined named opens long at short lines at_last ends on inside room h h1 found =
    absurd (omega arith)
fill_capabilities-first fuel (suc zero) begin end e max section_name mem mem' sys tail name last ls
      caps c c' lined named opens long at short lines at_last ends on inside room h h1 found =
    absurd (omega arith)
fill_capabilities-first fuel (suc (suc rounds)) begin end e max section_name mem mem' sys tail name
      last ls caps c c' lined named opens long at short lines at_last ends on inside room h h1
      found =
    let from = begin + length (codes "BEGIN " ++ (sys ++ tail)) + 1 in
    ground (
      arith,
      lined,
      get_section-LinesAt mem' fuel 0 begin end e section_name sys tail (codes "CAPABILITY" ++ name)
          last ls (record c { name = from + 10 + 1 }) c' named opens long at lines at_last ends on
          inside,
      capability_loop-LinesAt mem' fuel 0 e max from name ls rounds (suc (suc rounds)) caps c c' on
          room at short lines h found,
    )
