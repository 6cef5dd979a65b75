-- ===== src/Vmm/Flags.antt =====
-- The mapping flags: `convert_to_arch_flags` of arch/x86_64/src/vmm.c, from `enum map_flags` of
-- kernel/include/memory/vmmwrapper.h to the bits of a page table entry.
use Prim.Native.Nat.{max}
use raccoon_exok.Common.{
  ℕ, zero, suc, ◌≤◌, ◌*◌, ◌^◌, ◌≡◌, ap, bit_and, bit_or, ◌==◌, if◌then◌else◌, arith,
}
use native.Mathlib.Nat.{one-le-pow}
use raccoon_exok.Common.Bits.Single.{bit, bit-bit_or, bit-pow, bit_and-pow, bit-le-one, zero-bit}

abbrev pub map_present : ℕ
map_present = 1

abbrev pub map_write : ℕ
map_write = 2

abbrev pub map_user : ℕ
map_user = 4

abbrev pub map_copy_on_write : ℕ
map_copy_on_write = 8

abbrev pub map_execute : ℕ
map_execute = 16

abbrev pub map_swapped : ℕ
map_swapped = 32

-- `if (flags & from) to_return |= to;`
abbrev convert : (flags from to to_return : ℕ) → ℕ
convert flags from to to_return = if bit_and flags from == 0 then to_return else bit_or to_return to

unfoldable pub convert_to_arch_flags : ℕ → ℕ
convert_to_arch_flags flags = convert flags map_swapped (2 ^ 10) (
    convert flags map_execute (2 ^ 63) (
      convert flags map_copy_on_write (2 ^ 9)
        (convert flags map_user 4 (convert flags map_write 2 (convert flags map_present 1 0)))))

zero_times : (n : ℕ) → 0 * n ≡ 0
zero_times n = omega arith

times_pow : (b j : ℕ) → b ≤ 1 → (b * 2 ^ j == 0) ≡ (b == 0)
times_pow zero j h = ap (λ (n : ℕ). n == 0) (zero_times (2 ^ j))
times_pow (suc zero) j h = ground (arith, one-le-pow j 2)
times_pow (suc (suc b)) j h = absurd (omega arith)

-- One conversion sets bit `m` of the result if bit `j` of the flags is set.
bit-convert :
    (flags j m acc k : ℕ)
    → bit (convert flags (2 ^ j) (2 ^ m) acc) k
      ≡ max (bit acc k) (if m == k then bit flags j else 0)
bit-convert flags j m acc k = ground (
  arith,
  bit_and-pow flags j,
  bit-bit_or acc (2 ^ m) k,
  bit-pow m k,
  bit-le-one flags j,
  one-le-pow j 2,
  times_pow (bit flags j) j,
)

-- Bits 0, 1 and 2 of the converted flags are those of the flags, bits 9, 63 and 10 are bits 3, 4 and
-- 5 of the flags, and no other bit is set.
pub bit-convert_to_arch_flags :
    (flags k : ℕ)
    → bit (convert_to_arch_flags flags) k ≡ (
        if 0 == k
        then bit flags 0
        else if 1 == k
        then bit flags 1
        else if 2 == k
        then bit flags 2
        else if 9 == k
        then bit flags 3
        else if 63 == k
        then bit flags 4
        else if 10 == k
        then bit flags 5
        else 0)
unfolding convert_to_arch_flags
bit-convert_to_arch_flags flags k =
    simp
      (
        bit-convert flags 5 10 _ k,
        bit-convert flags 4 63 _ k,
        bit-convert flags 3 9 _ k,
        bit-convert flags 2 2 _ k,
        bit-convert flags 1 1 _ k,
        bit-convert flags 0 0 0 k,
        zero-bit k,
      )
      (ground arith)
