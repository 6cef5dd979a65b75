-- ===== src/Common/Bits/Single.antt =====
-- The single bits of a number, and what the native operations do to each.
use native.Mathlib.Nat.{pow-suc, one-le-pow, div-div-eq-div-mul}
use Prim.Native.Nat.{min, max}
use raccoon_exok.Common.Tests.{◌==◌, if◌then◌else◌}
use Prim.Native.Nat.{ℕ, zero, suc, ◌+◌, ◌-◌, ◌*◌, ◌/◌, ◌%◌, ◌^◌, ◌≤◌, ◌<◌, bit_and, bit_or, bit_xor}
use mathlib.Core.Path.{◌≡◌, refl, ap, ◌∙◌}
use native.Mathlib.Omega.{arith}
use raccoon_exok.Common.Bits.Step.{bit_and_step, bit_or_step, bit_xor_step, bit_and-zero}

unfoldable pub bit : ℕ → ℕ → ℕ
bit a zero = a % 2
bit a (suc k) = bit (a / 2) k

pub bit-le-one : (a k : ℕ) → bit a k ≤ 1
unfolding bit
bit-le-one a zero = omega arith
bit-le-one a (suc k) = bit-le-one (a / 2) k

-- `(a >> k) & 1`
pub bit-eq-shift : (a k : ℕ) → bit a k ≡ a / 2 ^ k % 2
unfolding bit
bit-eq-shift a zero = omega arith
bit-eq-shift a (suc k) =
    bit-eq-shift (a / 2) k
    ∙ ap (λ t. t % 2)
        (div-div-eq-div-mul a 2 (2 ^ k) ∙ ap (λ (t : ℕ). a / t) (omega (arith, pow-suc 2 k)))

pub zero-bit : (k : ℕ) → bit 0 k ≡ 0
unfolding bit
zero-bit zero = refl
zero-bit (suc k) = zero-bit k

pub half-pow : (k : ℕ) → 2 ^ suc k / 2 ≡ 2 ^ k
half-pow k = omega (arith, pow-suc 2 k)

-- `1 << j` has the one bit `j`.
pub bit-pow : (j k : ℕ) → bit (2 ^ j) k ≡ (if j == k then 1 else 0)
unfolding bit
bit-pow zero zero = refl
bit-pow zero (suc k) = ground (arith, zero-bit k)
bit-pow (suc j) zero = ground (arith, pow-suc 2 j)
bit-pow (suc j) (suc k) = rw half-pow (ground (arith, bit-pow j k))

-- An operation that works digit by digit, with `digit` on each.
module _ (op digit : ℕ → ℕ → ℕ)
    (step : (a b : ℕ) → op a b ≡ op (a / 2) (b / 2) * 2 + digit (a % 2) (b % 2))
    (small : (x y : ℕ) → x ≤ 1 → y ≤ 1 → digit x y ≤ 1) where
  bit-op : (a b k : ℕ) → bit (op a b) k ≡ digit (bit a k) (bit b k)
  unfolding bit
  bit-op a b zero = omega (arith, step a b, small (a % 2) (b % 2) (omega arith) (omega arith))
  bit-op a b (suc k) = ap (λ t. bit t k) half ∙ bit-op (a / 2) (b / 2) k
    where
      half : op a b / 2 ≡ op (a / 2) (b / 2)
      half = omega (arith, step a b, small (a % 2) (b % 2) (omega arith) (omega arith))

  op-lt : (n a b : ℕ) → op 0 0 ≡ 0 → a < 2 ^ n → b < 2 ^ n → op a b < 2 ^ n
  op-lt zero zero zero e h g = omega arith
  op-lt zero zero (suc b) e h g = absurd (omega arith)
  op-lt zero (suc a) b e h g = absurd (omega arith)
  op-lt (suc n) a b e h g = omega (
    arith,
    step a b,
    pow-suc 2 n,
    small (a % 2) (b % 2) (omega arith) (omega arith),
    op-lt n (a / 2) (b / 2) e (omega (arith, pow-suc 2 n)) (omega (arith, pow-suc 2 n)),
  )

pub bit-bit_and : (a b k : ℕ) → bit (bit_and a b) k ≡ min (bit a k) (bit b k)
bit-bit_and = bit-op bit_and min bit_and_step (λ x y h g. omega arith)

pub bit-bit_or : (a b k : ℕ) → bit (bit_or a b) k ≡ max (bit a k) (bit b k)
bit-bit_or = bit-op bit_or max bit_or_step (λ x y h g. omega arith)

pub bit-bit_xor : (a b k : ℕ) → bit (bit_xor a b) k ≡ (bit a k + bit b k) % 2
bit-bit_xor = bit-op bit_xor (λ x y. (x + y) % 2) bit_xor_step (λ x y h g. omega arith)

pub bit_and-lt : (n a b : ℕ) → a < 2 ^ n → b < 2 ^ n → bit_and a b < 2 ^ n
bit_and-lt n a b = op-lt bit_and min bit_and_step (λ x y h g. omega arith) n a b refl

pub bit_or-lt : (n a b : ℕ) → a < 2 ^ n → b < 2 ^ n → bit_or a b < 2 ^ n
bit_or-lt n a b = op-lt bit_or max bit_or_step (λ x y h g. omega arith) n a b refl

pub bit_xor-lt : (n a b : ℕ) → a < 2 ^ n → b < 2 ^ n → bit_xor a b < 2 ^ n
bit_xor-lt n a b =
    op-lt bit_xor (λ x y. (x + y) % 2) bit_xor_step (λ x y h g. omega arith) n a b refl

-- Numbers below `2 ^ n` with the same first `n` bits are equal.
pub bit-ext : (n a b : ℕ) → a < 2 ^ n → b < 2 ^ n → ((k : ℕ) → k < n → bit a k ≡ bit b k) → a ≡ b
unfolding bit
bit-ext zero a b h g same = omega arith
bit-ext (suc n) a b h g same = omega (
  arith,
  same 0 (omega arith),
  bit-ext n (a / 2) (b / 2) (omega (arith, pow-suc 2 n)) (omega (arith, pow-suc 2 n))
      (λ k l. same (suc k) (omega arith)),
)

-- A number below `2 ^ n` whose first `n` bits are all set.
pub all_ones : (n a : ℕ) → a < 2 ^ n → ((k : ℕ) → k < n → bit a k ≡ 1) → a ≡ 2 ^ n - 1
unfolding bit
all_ones zero a h ones = omega arith
all_ones (suc n) a h ones = omega (
  arith,
  pow-suc 2 n,
  one-le-pow n 2,
  ones 0 (omega arith),
  all_ones n (a / 2) (omega (arith, pow-suc 2 n)) (λ k l. ones (suc k) (omega arith)),
)

half-ones : (n : ℕ) → (2 ^ suc n - 1) / 2 ≡ 2 ^ n - 1
half-ones n = omega (arith, pow-suc 2 n, one-le-pow n 2)

-- `a & (1 << k)` picks one bit.
pub bit_and-pow : (a k : ℕ) → bit_and a (2 ^ k) ≡ bit a k * 2 ^ k
unfolding bit
bit_and-pow a zero = omega (arith, bit_and_step a 1, bit_and-zero (a / 2))
bit_and-pow a (suc k) = omega (
  arith,
  bit_and_step a (2 ^ suc k),
  ap (bit_and (a / 2)) (half-pow k),
  pow-suc 2 k,
  ap (λ (t : ℕ). bit (a / 2) k * t) (pow-suc 2 k),
  bit_and-pow (a / 2) k,
)

pub bit-ones : (n k : ℕ) → k < n → bit (2 ^ n - 1) k ≡ 1
unfolding bit
bit-ones zero k h = elim h [ ]
bit-ones (suc n) zero h = omega (arith, pow-suc 2 n, one-le-pow n 2)
bit-ones (suc n) (suc k) h = ap (λ t. bit t k) (half-ones n) ∙ bit-ones n k (omega arith)
