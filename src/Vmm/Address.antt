-- ===== src/Vmm/Address.antt =====
-- Virtual addresses and their fields: `SHIFTR` of kernel/include/utils/macros.h, `address_64_bits` of
-- arch/x86_64/include/vmm/vmm.h and `craft_addr` of arch/x86_64/src/vmm.c.
use raccoon_exok.Common.{
  ℕ, ◌+◌, ◌-◌, ◌*◌, ◌/◌, ◌%◌, ◌^◌, ◌<◌, ◌≡◌, refl, ap, ◌∙◌, bit_and, bit_or, arith,
}
use native.Mathlib.Nat.{mod-eq_of_lt}
use raccoon_exok.Common.Word.{u64, ◌<<◌, ◌>>◌}
use raccoon_exok.Common.Bits.Fields.{bit_or_low, bit_and_mask}

-- `((x) >> (shift)) & MASK(n)`
unfoldable pub shiftr : (x n shift : ℕ) → ℕ
shiftr x n shift = bit_and (x >> shift) ((1 << n) - 1)

unfoldable pub craft_addr : (offset_l4 offset_l3 offset_l2 offset_l1 offset_l0 : ℕ) → ℕ
craft_addr offset_l4 offset_l3 offset_l2 offset_l1 offset_l0 =
    bit_or
      (bit_or (bit_or (bit_or offset_l0 (u64 (offset_l1 << 12))) (u64 (offset_l2 << 21)))
        (u64 (offset_l3 << 30)))
      (u64 (offset_l4 << 39))

-- The members of the union, as `address_offset_64` lays them out.
pub record AddressOffset64 : Type 0 where
  pub plm0 : ℕ
  pub plm1 : ℕ
  pub plm2 : ℕ
  pub plm3 : ℕ
  pub plm4 : ℕ
  pub unused : ℕ

-- The `SHIFTR`s that `kmmap` begins with; its `addr & mask_l0` is the last.
unfoldable pub offsets : ℕ → AddressOffset64
unfolding shiftr
offsets addr = record {
  plm0 = bit_and addr ((1 << 12) - 1);
  plm1 = shiftr addr 9 12;
  plm2 = shiftr addr 9 21;
  plm3 = shiftr addr 9 30;
  plm4 = shiftr addr 9 39;
  unused = addr >> 48;
}

bit_or-field :
    (k q r : ℕ) → q * 2 ^ k < 2 ^ 64 → r < 2 ^ k → bit_or r (u64 (q << k)) ≡ q * 2 ^ k + r
bit_or-field k q r h g = ap (bit_or r) (mod-eq_of_lt h) ∙ bit_or_low k q r g

-- On offsets within their fields no two of the shifted offsets overlap.
pub craft_addr-sum :
    (a b c d e : ℕ)
    → a < 512
    → b < 512
    → c < 512
    → d < 512
    → e < 4096
    → craft_addr a b c d e ≡ a * 2 ^ 39 + (b * 2 ^ 30 + (c * 2 ^ 21 + (d * 2 ^ 12 + e)))
unfolding craft_addr
craft_addr-sum a b c d e ha hb hc hd he = rw (
  bit_or-field 12 d e (omega arith) he,
  bit_or-field 21 c (d * 2 ^ 12 + e) (omega arith) (omega arith),
  bit_or-field 30 b (c * 2 ^ 21 + (d * 2 ^ 12 + e)) (omega arith) (omega arith),
  bit_or-field 39 a (b * 2 ^ 30 + (c * 2 ^ 21 + (d * 2 ^ 12 + e))) (omega arith) (omega arith),
)

shiftr-mod : (x n shift : ℕ) → shiftr x n shift ≡ x / 2 ^ shift % 2 ^ n
unfolding shiftr
shiftr-mod x n shift =
    ap (λ (m : ℕ). bit_and (x / 2 ^ shift) (m - 1)) (omega arith) ∙ bit_and_mask n (x / 2 ^ shift)

-- The fields of an address as quotients and remainders.
abbrev pub split : ℕ → AddressOffset64
split x = record {
  plm0 = x % 4096;
  plm1 = x / 2 ^ 12 % 512;
  plm2 = x / 2 ^ 21 % 512;
  plm3 = x / 2 ^ 30 % 512;
  plm4 = x / 2 ^ 39 % 512;
  unused = x / 2 ^ 48;
}

pub offsets-split : (x : ℕ) → offsets x ≡ split x
unfolding offsets
offsets-split x =
    simp
      (
        shiftr-mod x 9 12,
        shiftr-mod x 9 21,
        shiftr-mod x 9 30,
        shiftr-mod x 9 39,
        bit_and_mask 12 x,
      )
      refl

abbrev pub fields : ℕ → ℕ → ℕ → ℕ → ℕ → AddressOffset64
fields a b c d e = record { plm0 = e; plm1 = d; plm2 = c; plm3 = b; plm4 = a; unused = 0 }

pub split-craft_addr :
    (a b c d e : ℕ)
    → a < 512
    → b < 512
    → c < 512
    → d < 512
    → e < 4096
    → split (craft_addr a b c d e) ≡ fields a b c d e
split-craft_addr a b c d e ha hb hc hd he =
    ap split (craft_addr-sum a b c d e ha hb hc hd he)
    ∙ parts (a * 2 ^ 39 + (b * 2 ^ 30 + (c * 2 ^ 21 + (d * 2 ^ 12 + e)))) refl
  where
    p0 : (x : ℕ) → x ≡ a * 2 ^ 39 + (b * 2 ^ 30 + (c * 2 ^ 21 + (d * 2 ^ 12 + e))) → x % 4096 ≡ e
    p0 x h = omega arith

    p1 :
        (x : ℕ)
        → x ≡ a * 2 ^ 39 + (b * 2 ^ 30 + (c * 2 ^ 21 + (d * 2 ^ 12 + e)))
        → x / 2 ^ 12 % 512 ≡ d
    p1 x h = omega arith

    p2 :
        (x : ℕ)
        → x ≡ a * 2 ^ 39 + (b * 2 ^ 30 + (c * 2 ^ 21 + (d * 2 ^ 12 + e)))
        → x / 2 ^ 21 % 512 ≡ c
    p2 x h = omega arith

    p3 :
        (x : ℕ)
        → x ≡ a * 2 ^ 39 + (b * 2 ^ 30 + (c * 2 ^ 21 + (d * 2 ^ 12 + e)))
        → x / 2 ^ 30 % 512 ≡ b
    p3 x h = omega arith

    p4 :
        (x : ℕ)
        → x ≡ a * 2 ^ 39 + (b * 2 ^ 30 + (c * 2 ^ 21 + (d * 2 ^ 12 + e)))
        → x / 2 ^ 39 % 512 ≡ a
    p4 x h = omega arith

    p5 : (x : ℕ) → x ≡ a * 2 ^ 39 + (b * 2 ^ 30 + (c * 2 ^ 21 + (d * 2 ^ 12 + e))) → x / 2 ^ 48 ≡ 0
    p5 x h = omega arith

    parts :
        (x : ℕ)
        → x ≡ a * 2 ^ 39 + (b * 2 ^ 30 + (c * 2 ^ 21 + (d * 2 ^ 12 + e)))
        → split x ≡ fields a b c d e
    parts x h = λ i. record {
      plm0 = p0 x h i;
      plm1 = p1 x h i;
      plm2 = p2 x h i;
      plm3 = p3 x h i;
      plm4 = p4 x h i;
      unused = p5 x h i;
    }

-- The fields of the address that `craft_addr` makes from four table indices below 512 and an offset
-- below 4096 are these indices and this offset, and the upper 16 bits are 0.
pub offsets-craft_addr :
    (a b c d e : ℕ)
    → a < 512
    → b < 512
    → c < 512
    → d < 512
    → e < 4096
    → offsets (craft_addr a b c d e)
      ≡ record { plm0 = e; plm1 = d; plm2 = c; plm3 = b; plm4 = a; unused = 0 }
offsets-craft_addr a b c d e ha hb hc hd he =
    offsets-split (craft_addr a b c d e) ∙ split-craft_addr a b c d e ha hb hc hd he

-- `craft_addr` on the fields of an address gives the lower 48 bits of the address back.
pub craft_addr-offsets :
    (x : ℕ) → (let o = offsets x in craft_addr o.plm4 o.plm3 o.plm2 o.plm1 o.plm0) ≡ x % 2 ^ 48
craft_addr-offsets x =
    ap (λ o. craft_addr o.plm4 o.plm3 o.plm2 o.plm1 o.plm0) (offsets-split x)
    ∙ craft_addr-sum (x / 2 ^ 39 % 512) (x / 2 ^ 30 % 512) (x / 2 ^ 21 % 512) (x / 2 ^ 12 % 512)
        (x % 4096) (omega arith) (omega arith) (omega arith) (omega arith) (omega arith)
    ∙ omega arith
