-- ===== src/Vmm/Tests/Words.antt =====
-- The addresses of the recursive window, and the flags of the protocol page.
use raccoon_exok.Common.{◌≡◌}
use raccoon_exok.Common.Bits.Single.{bit}
use raccoon_exok.Vmm.Flags.{convert_to_arch_flags, bit-convert_to_arch_flags}

-- Present, for the user, and MAP_EXECUTE, which sets bit 63.
bit-convert_to_arch_flags_example : bit (convert_to_arch_flags 21) 63 ≡ bit 21 4
bit-convert_to_arch_flags_example = bit-convert_to_arch_flags 21 63
