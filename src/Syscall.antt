-- ===== src/Syscall.antt =====
-- kernel/src/syscall_handler.c: the system calls. `coreid` is the `COREID` of the calling core, cut
-- to the `int16_t` that the capability functions take. Logging is left out.
pub mod Ownership
mod Tests
use raccoon_exok.Common.{ℕ, zero, suc, Bool, true, false, List, [], ◌∷◌, ◌==◌, if◌then◌else◌}
use raccoon_exok.Common.Run.{Run, ok, ◌>>=◌}
use raccoon_exok.Common.Word.{u16}
use raccoon_exok.Memory.{Memory}
use raccoon_exok.Capability.{Capability, get_capability, release_capability}

-- `struct syscall_pack`: the registers of the caller.
pub record SyscallPack : Type 0 where
  pub syscall_id : ℕ
  pub arg1 : ℕ
  pub arg2 : ℕ
  pub arg3 : ℕ
  pub arg4 : ℕ
  pub arg5 : ℕ
  pub arg6 : ℕ

module _ (mem : Memory) (fuel : ℕ) where
  -- The value returned to the caller, and the table of capabilities.
  pub syscall_handler : ℕ → SyscallPack → List Capability → Run (ℕ × List Capability)
  syscall_handler coreid pack caps =
      if pack.syscall_id == 1
      then get_capability mem fuel pack.arg1 (u16 coreid) caps
      else if pack.syscall_id == 2
      then release_capability mem fuel pack.arg1 (u16 coreid) caps
      else ok (pack.arg1, caps)

  -- System calls one after the other, each by its core.
  pub serve : List (ℕ × SyscallPack) → List Capability → Run (List Capability)
  serve [] caps = ok caps
  serve ((coreid, pack) ∷ calls) caps =
      syscall_handler coreid pack caps >>= λ (r, caps'). serve calls caps'
