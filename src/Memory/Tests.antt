-- ===== src/Memory/Tests.antt =====
-- Filling and copying in a memory that holds at each address its lowest byte.
use raccoon_exok.Common.{ℕ, ◌%◌, refl, some}
use raccoon_exok.Memory.{Memory}
use raccoon_exok.Memory.Blocks.{Block}

abbrev ramp : Memory
ramp p = some (p % 256)

ramp-Block : (lo n : ℕ) → Block ramp lo n
ramp-Block lo n p h g = (p % 256, refl)
