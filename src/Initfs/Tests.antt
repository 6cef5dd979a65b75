-- ===== src/Initfs/Tests.antt =====
-- An empty table at 1000 and the name "init" at 10, in a memory that is mapped everywhere.
use raccoon_exok.Common.{ℕ, ◌-◌, ◌≡◌, refl, some, List, [], ◌∷◌, get_or, get_elem?, arith, inl}
use raccoon_exok.Common.Run.{ok}
use raccoon_exok.Memory.{StrAt}
use raccoon_exok.Initfs.{Initfs, register_new_file, get_file}
use raccoon_exok.Initfs.Table.{IsTable, get_file-register_new_file}

abbrev init : List ℕ
init = 105 ∷ 110 ∷ 105 ∷ 116 ∷ []

abbrev empty : Initfs
empty = record { mem = λ p. some (get_or init (p - 10) 0); initrd_files = 1000; files = [] }

empty-IsTable : IsTable empty []
empty-IsTable = record {
  mapped = λ p h g. (get_or init (p - 10) 0, refl);
  named = tt;
  same_length = refl;
  room = omega arith;
}

init-StrAt : StrAt empty.mem 10 init
init-StrAt = (
  refl,
  omega arith,
  omega arith,
  (
    refl,
    omega arith,
    omega arith,
    (refl, omega arith, omega arith, (refl, omega arith, omega arith, refl)),
  ),
)

get_file-register_new_file_example :
    (t : Initfs) × (i : ℕ) × (register_new_file 10 0x5000 0x6000 empty ≡ ok t)
    × (get_file 128 10 t ≡ ok (some i))
    × (get_elem? t.files i ≡ some (record { begin = 0x5000; end = 0x6000; cursor = 0 }))
get_file-register_new_file_example =
    get_file-register_new_file empty [] 128 10 0x5000 0x6000 init empty-IsTable (omega arith)
      (omega arith) init-StrAt (omega arith) (inl (omega arith)) refl
