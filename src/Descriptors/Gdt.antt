-- ===== src/Descriptors/Gdt.antt =====
-- arch/x86_64/src/gdt.c: the entries of the global descriptor table.
use raccoon_exok.Common.{ℕ, ◌+◌, ◌/◌, ◌%◌, ◌^◌, ◌<◌, ◌≡◌, refl, bit_and, arith}
use raccoon_exok.Common.Word.{u8, u16, ◌<<◌, ◌>>◌}
use raccoon_exok.Common.Bits.Fields.{bit_and_mask}

-- `limit16_19` and `granularity` are bit fields of 4 bits each.
pub record GdtEntry : Type 0 where
  pub limit0_15 : ℕ
  pub base0_15 : ℕ
  pub base16_23 : ℕ
  pub flags : ℕ
  pub limit16_19 : ℕ
  pub granularity : ℕ
  pub base24_31 : ℕ

unfoldable pub create_gdt_entry : (base limit granularity flags : ℕ) → GdtEntry
create_gdt_entry base limit granularity flags = record {
  limit0_15 = u16 (bit_and limit 0xffff);
  base0_15 = u16 (bit_and base 0xffff);
  base16_23 = u8 (bit_and (base >> 16) 0xff);
  flags = flags;
  limit16_19 = bit_and (limit >> 16) 0x0f % 2 ^ 4;
  granularity = granularity % 2 ^ 4;
  base24_31 = u8 (bit_and (base >> 24) 0xff);
}

-- The packed structure as the 64-bit number that the processor loads.
abbrev pub descriptor : GdtEntry → ℕ
descriptor e =
    e.limit0_15
    + (e.base0_15 << 16)
    + (e.base16_23 << 32)
    + (e.flags << 40)
    + (e.limit16_19 << 48)
    + (e.granularity << 52)
    + (e.base24_31 << 56)

-- The fields that the processor reads from a descriptor: the base from the bits 16 to 39 and 56 to
-- 63, the limit from 0 to 15 and 48 to 51, the access byte from 40 to 47, the flags from 52 to 55.
abbrev pub base_of : ℕ → ℕ
base_of w = w / 2 ^ 16 % 2 ^ 24 + ((w / 2 ^ 56) << 24)

abbrev pub limit_of : ℕ → ℕ
limit_of w = w % 2 ^ 16 + ((w / 2 ^ 48 % 2 ^ 4) << 16)

abbrev pub access_of : ℕ → ℕ
access_of w = w / 2 ^ 40 % 2 ^ 8

abbrev pub granularity_of : ℕ → ℕ
granularity_of w = w / 2 ^ 52 % 2 ^ 4

create_gdt_entry-fields :
    (base limit granularity flags : ℕ)
    → create_gdt_entry base limit granularity flags ≡ record {
      limit0_15 = limit % 2 ^ 16 % 2 ^ 16;
      base0_15 = base % 2 ^ 16 % 2 ^ 16;
      base16_23 = base / 2 ^ 16 % 2 ^ 8 % 2 ^ 8;
      flags = flags;
      limit16_19 = limit / 2 ^ 16 % 2 ^ 4 % 2 ^ 4;
      granularity = granularity % 2 ^ 4;
      base24_31 = base / 2 ^ 24 % 2 ^ 8 % 2 ^ 8;
    }
unfolding create_gdt_entry
create_gdt_entry-fields base limit granularity flags =
    simp
      (
        bit_and_mask 16 limit,
        bit_and_mask 16 base,
        bit_and_mask 8 (base / 2 ^ 16),
        bit_and_mask 4 (limit / 2 ^ 16),
        bit_and_mask 8 (base / 2 ^ 24),
      )
      refl

-- From the descriptor that `create_gdt_entry` makes of a 32-bit base, a limit, and access and flag
-- bytes, the processor reads that base, the lower 20 bits of the limit, that access byte and the
-- lower 4 bits of the flags.
pub descriptor-create_gdt_entry :
    (base limit granularity flags : ℕ)
    → base < 2 ^ 32
    → flags < 2 ^ 8
    → (let w = descriptor (create_gdt_entry base limit granularity flags) in
        (base_of w ≡ base)
        × (limit_of w ≡ limit % 2 ^ 20)
        × (access_of w ≡ flags)
        × (granularity_of w ≡ granularity % 2 ^ 4))
descriptor-create_gdt_entry base limit granularity flags h g =
    rw (create_gdt_entry-fields base limit granularity flags)
      (omega arith, omega arith, omega arith, omega arith)
