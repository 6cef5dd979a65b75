-- ===== src/Pmm/Bitmap.antt =====
-- The bitmap as a set of frame numbers: one bit is written, all others stay.
use native.Mathlib.Nat.{pow-le-pow_right}
use raccoon_exok.Common.{
  ℕ, zero, suc, ◌-◌, ◌*◌, ◌/◌, ◌%◌, ◌^◌, ◌≤◌, ◌<◌, ◌≡◌, ◌∙◌, arith, ◌==◌, if◌then◌else◌, ltb,
}
use raccoon_exok.Common.Bits.Fields.{bit_and_mask}
use raccoon_exok.Common.Bits.Single.{
  bit, bit-le-one, bit-eq-shift, bit-pow, bit-bit_xor, bit-bit_or, bit_xor-lt,
}
use raccoon_exok.Pmm.{set_frame, flip_frame, read_frame, zero_words, flip_frames}

-- Every word of the bitmap is a 64-bit word.
abbrev pub IsBitmap : (ℕ → ℕ) → Type 0
IsBitmap bitmap = (i : ℕ) → bitmap i < 2 ^ 64

module _ (bitmap : ℕ → ℕ) where
  pub read_frame-eq-bit : (g : ℕ) → read_frame bitmap g ≡ bit (bitmap (g / 64)) (g % 64)
  unfolding read_frame
  read_frame-eq-bit g =
      bit_and_mask 1 (bitmap (g / 64) / 2 ^ (g % 64))
      ∙ omega (arith, bit-eq-shift (bitmap (g / 64)) (g % 64))

  pub read_frame-le-one : (g : ℕ) → read_frame bitmap g ≤ 1
  read_frame-le-one g = rw (read_frame-eq-bit g) (bit-le-one _ _)

same_slot : (f g : ℕ) → f / 64 ≡ g / 64 → f % 64 ≡ g % 64 → f ≡ g
same_slot f g h k = omega arith

-- On any bitmap, flipping frame `f` inverts its own bit and leaves the bit of every other frame.
pub read_frame-flip_frame :
    (bitmap : ℕ → ℕ) (f g : ℕ)
    → read_frame (flip_frame bitmap f) g
      ≡ (if f == g then 1 - read_frame bitmap g else read_frame bitmap g)
unfolding flip_frame
read_frame-flip_frame bitmap f g = simp (read_frame-eq-bit) (
    ground (
      arith,
      same_slot f g,
      bit-bit_xor (bitmap (f / 64)) (1 * 2 ^ (f % 64)) (g % 64),
      bit-pow (f % 64) (g % 64),
      bit-le-one (bitmap (g / 64)) (g % 64),
    ))

pub read_frame-set_frame :
    (bitmap : ℕ → ℕ) (f g : ℕ)
    → read_frame (set_frame bitmap f) g ≡ (if f == g then 1 else read_frame bitmap g)
unfolding set_frame
read_frame-set_frame bitmap f g = simp (read_frame-eq-bit) (
    ground (
      arith,
      same_slot f g,
      bit-bit_or (bitmap (f / 64)) (1 * 2 ^ (f % 64)) (g % 64),
      bit-pow (f % 64) (g % 64),
      bit-le-one (bitmap (g / 64)) (g % 64),
    ))

two-pow-lt : (j : ℕ) → j < 64 → 2 ^ j < 2 ^ 64
two-pow-lt j h =
    omega (arith, pow-le-pow_right {n = 2} (omega arith) {i = j} {j = 63} (omega arith))

pub flip_frame-IsBitmap :
    (bitmap : ℕ → ℕ) (f : ℕ) → IsBitmap bitmap → IsBitmap (flip_frame bitmap f)
unfolding flip_frame
flip_frame-IsBitmap bitmap f h i = ground (
  arith,
  h i,
  h (f / 64),
  two-pow-lt (f % 64),
  bit_xor-lt 64 (bitmap (f / 64)) (1 * 2 ^ (f % 64)),
)

zero_words-read : (n : ℕ) (bitmap : ℕ → ℕ) (i : ℕ) → i < n → zero_words n bitmap i ≡ 0
unfolding zero_words
zero_words-read zero bitmap i h = elim h [ ]
zero_words-read (suc n) bitmap i h = ground (arith, zero_words-read n bitmap i)

-- Zeroing the words `0..n-1` frees the frames `0..64n-1`.
pub read_frame-zero_words :
    (n : ℕ) (bitmap : ℕ → ℕ) (g : ℕ) → g < n * 64 → read_frame (zero_words n bitmap) g ≡ 0
unfolding read_frame
read_frame-zero_words n bitmap g h = ground (arith, zero_words-read n bitmap (g / 64))

-- Flipping `0..n-1` inverts exactly the frames below `n`.
pub read_frame-flip_frames :
    (n : ℕ) (bitmap : ℕ → ℕ) (g : ℕ)
    → read_frame (flip_frames n bitmap) g
      ≡ (if ltb g n then 1 - read_frame bitmap g else read_frame bitmap g)
unfolding flip_frames
read_frame-flip_frames zero bitmap g = ground arith
read_frame-flip_frames (suc n) bitmap g =
    ground
      (arith, read_frame-flip_frame (flip_frames n bitmap) n g, read_frame-flip_frames n bitmap g)
