-- ===== src/Registers.antt =====
-- arch/x86_64/src/cpu_regs.c: the values of the registers that are recorded for each core.
pub mod Lookup
pub mod Tests
use raccoon_exok.Common.{
  ℕ, zero, suc, ◌+◌, Bool, true, false, ◌&&◌, Option, none, some, ltb, ◌==◌, if◌then◌else◌, write,
}
use raccoon_exok.Common.Run.{Run, ok, fault, ◌>>=◌}
use raccoon_exok.Common.Limits.{max_core}
use raccoon_exok.Memory.{Memory}
use raccoon_exok.Strings.{my_strcmp}

abbrev pub max_registers : ℕ
max_registers = 16

-- `struct pair_name_value`; `name` is a pointer.
pub record PairNameValue : Type 0 where
  pub name : ℕ
  pub value : ℕ

-- `table[core][i]`, of 32 rows of 16 entries, and `is_init`.
pub record CpuRegs : Type 0 where
  pub table : ℕ → ℕ → PairNameValue
  pub is_init : Bool

abbrev pub set_name : (ℕ → PairNameValue) → (i name : ℕ) → ℕ → PairNameValue
set_name row i name = write row i (record (row i) { name = name })

-- `table[core][i].value = value;`
abbrev pub store_value : CpuRegs → (core i value : ℕ) → CpuRegs
store_value s core i value = record s {
  table = write s.table core (write (s.table core) i (record (s.table core i) { value = value }));
}

-- The memory, and fuel for each comparison.
module _ (mem : Memory) (fuel : ℕ) where
  -- The loop of both functions from entry `i` on, for the rounds that are left of MAX_CORE: the entry
  -- of that name. The rows have MAX_REGISTERS entries.
  unfoldable pub find_loop : (ℕ → PairNameValue) → (id rounds i : ℕ) → Run (Option ℕ)
  find_loop row id zero i = ok none
  find_loop row id (suc rounds) i =
      if ltb i max_registers
      then (my_strcmp mem fuel (row i).name id >>= λ differs.
          let rest = find_loop row id rounds (i + 1) in if differs == 0 then ok (some i) else rest)
      else fault

  -- `table[core]`.
  unfoldable pub find : (id core : ℕ) → CpuRegs → Run (Option ℕ)
  find id core s = if ltb core max_core then find_loop (s.table core) id max_core 0 else fault

-- The addresses of "idtr", "gdtr", "cr3" and "rflags".
module _ (idtr gdtr cr3 rflags : ℕ) where
  unfoldable pub init_cpu_regs : CpuRegs → CpuRegs
  init_cpu_regs s = if s.is_init then s else record {
    is_init = true;
    table = λ core.
        if ltb core max_core
        then set_name (set_name (set_name (set_name (s.table core) 0 idtr) 1 gdtr) 2 cr3) 3 rflags
        else s.table core;
  }

module _ (mem : Memory) (idtr gdtr cr3 rflags fuel : ℕ) where
  unfoldable pub struct_cpu_regs_interface_set : (id value core : ℕ) → CpuRegs → Run (ℕ × CpuRegs)
  struct_cpu_regs_interface_set id value core s = do
    let s = init_cpu_regs idtr gdtr cr3 rflags s
    found ← find mem fuel id core s
    ok (elim found [ none ↦ (0, s) | some i ↦ (1, store_value s core i value) ])

  -- `none` for the result 0, and else what `*value` gets.
  unfoldable pub struct_cpu_regs_interface_get : (id core : ℕ) → CpuRegs → Run (Option ℕ × CpuRegs)
  struct_cpu_regs_interface_get id core s = do
    let s = init_cpu_regs idtr gdtr cr3 rflags s
    found ← find mem fuel id core s
    ok (elim found [ none ↦ (none, s) | some i ↦ (some (s.table core i).value, s) ])
