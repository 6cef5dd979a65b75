-- ===== src/Syscall/Tests.antt =====
-- Two system calls of other cores, while core 2 holds the capability "ab".
use raccoon_exok.Common.{ℕ, ◌≡◌, refl, some, List, [], ◌∷◌, arith, inl}
use raccoon_exok.Common.Run.{ok}
use raccoon_exok.Memory.{Memory, StrAt}
use raccoon_exok.Memory.Text.{placed}
use raccoon_exok.Strings.Equality.{same_text}
use raccoon_exok.Capability.{Capability}
use raccoon_exok.Capability.Lookup.{holder}
use raccoon_exok.Syscall.{SyscallPack, serve}
use raccoon_exok.Syscall.Ownership.{serve-holder}

abbrev mem : Memory
mem = placed 100 (97 ∷ 98 ∷ 0 ∷ [])

abbrev held : List Capability
held = record { name = 100; begin_addr = 0; end_addr = 0; io_perms = 0; core_number = 2 } ∷ []

abbrev call : ℕ → SyscallPack
call id = record { syscall_id = id; arg1 = 100; arg2 = 0; arg3 = 0; arg4 = 0; arg5 = 0; arg6 = 0 }

ab-StrAt : StrAt mem 100 (97 ∷ 98 ∷ [])
ab-StrAt = (refl, omega arith, omega arith, (refl, omega arith, omega arith, refl))

serve-holder_example :
    (table : List Capability) × (serve mem 10 ((1, call 1) ∷ (3, call 2) ∷ []) held ≡ ok table)
    × (holder (97 ∷ 98 ∷ []) ((97 ∷ 98 ∷ []) ∷ []) table ≡ some 2)
unfolding holder same_text
serve-holder_example =
    serve-holder mem 10 ((97 ∷ 98 ∷ []) ∷ []) ((1, call 1) ∷ (3, call 2) ∷ []) 2 (97 ∷ 98 ∷ []) held
      (ab-StrAt, omega arith, tt) (inl (97 ∷ 98 ∷ [], ab-StrAt), (inl (97 ∷ 98 ∷ [], ab-StrAt), tt))
      (omega arith, (omega arith, tt)) (omega arith) refl
