-- ===== src/Common/Limits.antt =====
-- The limit that the build sets for all parts of the kernel.
use Prim.Native.Nat.{ℕ}

-- The number of cores.
abbrev pub max_core : ℕ
max_core = 32
