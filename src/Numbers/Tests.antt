-- ===== src/Numbers/Tests.antt =====
-- Printing into a memory of zeros that is mapped everywhere, and reading back.
use raccoon_exok.Common.{ℕ, ◌+◌, ◌-◌, ◌≡◌, refl, some, List, length, arith}
use raccoon_exok.Common.Run.{ok}
use raccoon_exok.Memory.{Memory, StrAt}
use raccoon_exok.Numbers.{dec_x, strtoul}
use raccoon_exok.Numbers.Print.{Room, strtoul-dec_x}

abbrev zeros : Memory
zeros p = some 0

zeros-Room : (n s : ℕ) → Room zeros n s
zeros-Room n s p h g = (0, refl)

strtoul-dec_x_example :
    (p : ℕ) × (mem' : Memory) × (t : List ℕ) × (dec_x 17 0xfee00000 100 zeros ≡ ok (p, mem'))
    × StrAt mem' p t
    × (p + length t ≡ 100 - 1)
    × (strtoul mem' 16 100 0 p ≡ ok (0xfee00000, 100 - 1))
strtoul-dec_x_example =
    strtoul-dec_x 0xfee00000 100 zeros (omega arith) (omega arith) (omega arith) (zeros-Room 18 100)
