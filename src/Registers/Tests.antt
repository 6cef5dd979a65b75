-- ===== src/Registers/Tests.antt =====
-- The four names in a memory, and a table that was not initialised yet.
use raccoon_exok.Common.{◌≡◌, refl, [], ◌∷◌, ◌++◌, some, false, arith}
use raccoon_exok.Common.Run.{ok}
use raccoon_exok.Memory.{Memory}
use raccoon_exok.Memory.Text.{codes, placed}
use raccoon_exok.Registers.{CpuRegs, struct_cpu_regs_interface_set, struct_cpu_regs_interface_get}
use raccoon_exok.Registers.Lookup.{Texts, IsRegs, before, get-set}

abbrev pub literals : Memory
literals =
    placed 100 (codes "idtr" ++ 0 ∷ codes "gdtr" ++ 0 ∷ codes "cr3" ++ 0 ∷ codes "rflags" ++ 0 ∷ [])

abbrev pub empty : CpuRegs
empty = record { table = λ core i. record { name = 0; value = 0 }; is_init = false }

pub literals-Texts : Texts 100 105 110 114 literals
literals-Texts = (
  (
    refl,
    omega arith,
    omega arith,
    (
      refl,
      omega arith,
      omega arith,
      (refl, omega arith, omega arith, (refl, omega arith, omega arith, refl)),
    ),
  ),
  (
    refl,
    omega arith,
    omega arith,
    (
      refl,
      omega arith,
      omega arith,
      (refl, omega arith, omega arith, (refl, omega arith, omega arith, refl)),
    ),
  ),
  (
    refl,
    omega arith,
    omega arith,
    (refl, omega arith, omega arith, (refl, omega arith, omega arith, refl)),
  ),
  (
    refl,
    omega arith,
    omega arith,
    (
      refl,
      omega arith,
      omega arith,
      (
        refl,
        omega arith,
        omega arith,
        (
          refl,
          omega arith,
          omega arith,
          (refl, omega arith, omega arith, (refl, omega arith, omega arith, refl)),
        ),
      ),
    ),
  ),
)

get-set_example :
    (s' : CpuRegs) × (struct_cpu_regs_interface_set literals 100 105 110 114 7 105 0x5000 0 empty
      ≡ ok (1, s'))
    × IsRegs 100 105 110 114 s'
    × (struct_cpu_regs_interface_get literals 100 105 110 114 7 105 0 s' ≡ ok (some 0x5000, s'))
get-set_example =
    get-set literals 100 105 110 114 7 empty 105 105 0x5000 0 0 1 1 literals-Texts (omega arith)
      (before refl) (omega arith) (omega arith) (omega arith) (omega arith) literals-Texts.1
      literals-Texts.1
