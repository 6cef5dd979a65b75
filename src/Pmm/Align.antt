-- ===== src/Pmm/Align.antt =====
-- Rounding to pages: `align`, and the mask of `free_frame`.
use raccoon_exok.Common.{ℕ, ◌+◌, ◌-◌, ◌*◌, ◌/◌, ◌%◌, ◌^◌, ◌≤◌, ◌<◌, bit_and, ◌≡◌, ◌∙◌, ap, arith}
use raccoon_exok.Common.Bits.Fields.{bit_and_shifted, bit_and_mask}
use raccoon_exok.Pmm.{align}

-- The mask `~0xFFF` clears the offset in a page.
pub bit_and-page_mask : (a : ℕ) → a < 2 ^ 64 → bit_and a 0xfffffffffffff000 ≡ a / 4096 * 4096
bit_and-page_mask a h =
    bit_and_shifted 12 a (2 ^ 52 - 1)
    ∙ ap (λ (t : ℕ). t * 4096) (bit_and_mask 52 (a / 4096) ∙ omega arith)

pub align-eq : (a : ℕ) → a + 4096 ≤ 2 ^ 64 → align 4096 a ≡ (a + 4095) / 4096 * 4096
unfolding align
align-eq a h = ground (arith, bit_and-page_mask a)

-- On an address at least a page below the top of memory, `align` with pages of 4096 bytes gives
-- the least multiple of 4096 that is not below the address.
pub align-least :
    (a : ℕ)
    → a + 4096 ≤ 2 ^ 64
    → (align 4096 a % 4096 ≡ 0)
      × (a ≤ align 4096 a)
      × ((m : ℕ) → m % 4096 ≡ 0 → a ≤ m → align 4096 a ≤ m)
align-least a h = rw (align-eq a h) (omega arith, omega arith, λ m e g. omega arith)

pub align-aligned : (a : ℕ) → a + 4096 ≤ 2 ^ 64 → a % 4096 ≡ 0 → align 4096 a ≡ a
align-aligned a h e = align-eq a h ∙ omega arith
