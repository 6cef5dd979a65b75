-- ===== src/Common/Bits/Fields.antt =====
-- Disjoint fields joined by `|`, and masks of low bits, as arithmetic.
use native.Mathlib.Nat.{pow-suc, one-le-pow, div-div-eq-div-mul}
use Prim.Native.Nat.{
  bit_or-bitwise, ℕ, zero, suc, ◌+◌, ◌-◌, ◌*◌, ◌/◌, ◌%◌, ◌^◌, ◌<◌, bit_and, bit_or,
}
use mathlib.Core.Path.{◌≡◌, refl, ap, ap₂, ◌∙◌}
use native.Mathlib.Omega.{arith}
use raccoon_exok.Common.Bits.Step.{bit_and_step, bit_or_step, bit_and-zero}

zero-bit_or : (b : ℕ) → bit_or 0 b ≡ b
zero-bit_or b = bit_or-bitwise 0 b

half-shift : (q k : ℕ) → q * 2 ^ suc k / 2 ≡ q * 2 ^ k
half-shift q k = omega (arith, ap (λ (t : ℕ). q * t) (pow-suc 2 k))

-- The low field first: `r | (q << k)`.
pub bit_or_low : (k q r : ℕ) → r < 2 ^ k → bit_or r (q * 2 ^ k) ≡ q * 2 ^ k + r
bit_or_low zero zero zero h = refl
bit_or_low zero (suc q) zero h = omega (arith, zero-bit_or (suc q * 1))
bit_or_low zero q (suc r) h = absurd (omega arith)
bit_or_low (suc k) q r h = omega (
  arith,
  pow-suc 2 k,
  bit_or_step r (q * 2 ^ suc k),
  ap (λ (t : ℕ). q * t) (pow-suc 2 k),
  ap (bit_or (r / 2)) (half-shift q k),
  bit_or_low k q (r / 2) (omega (arith, pow-suc 2 k)),
)

bit_or_comm_fuel : (n a b : ℕ) → a < n → b < n → bit_or a b ≡ bit_or b a
bit_or_comm_fuel zero a b h g = elim h [ ]
bit_or_comm_fuel (suc n) zero zero h g = refl
bit_or_comm_fuel (suc n) zero (suc b) h g = omega (
  arith,
  bit_or_step 0 (suc b),
  bit_or_step (suc b) 0,
  bit_or_comm_fuel n 0 (suc b / 2) (omega arith) (omega arith),
)
bit_or_comm_fuel (suc n) (suc a) b h g = omega (
  arith,
  bit_or_step (suc a) b,
  bit_or_step b (suc a),
  bit_or_comm_fuel n (suc a / 2) (b / 2) (omega arith) (omega arith),
)

pub bit_or_comm : (a b : ℕ) → bit_or a b ≡ bit_or b a
bit_or_comm a b = bit_or_comm_fuel (suc (a + b)) a b (omega arith) (omega arith)

-- The high field first: `(q << k) | r`.
pub bit_or_high : (k q r : ℕ) → r < 2 ^ k → bit_or (q * 2 ^ k) r ≡ q * 2 ^ k + r
bit_or_high k q r h = bit_or_comm (q * 2 ^ k) r ∙ bit_or_low k q r h

times_one_l : (x : ℕ) → x ≡ x * 2 ^ 0
times_one_l x = omega arith

pub bit_or-zero : (x : ℕ) → bit_or x 0 ≡ x
bit_or-zero x =
    ap (λ (y : ℕ). bit_or y 0) (times_one_l x) ∙ bit_or_high 0 x 0 (omega arith) ∙ omega arith

-- Setting the lowest bit.
pub bit_or-one : (x : ℕ) → bit_or x 1 ≡ x / 2 * 2 + 1
bit_or-one x = ground (arith, bit_or_step x 1, bit_or-zero (x / 2))

div-pow-suc : (a k : ℕ) → a / 2 / 2 ^ k ≡ a / 2 ^ suc k
div-pow-suc a k =
    div-div-eq-div-mul a 2 (2 ^ k) ∙ ap (λ (t : ℕ). a / t) (omega (arith, pow-suc 2 k))

mod-pow-suc : (a k : ℕ) → a % 2 ^ suc k ≡ a / 2 % 2 ^ k * 2 + a % 2
mod-pow-suc a k = omega (
  arith,
  ap (λ (t : ℕ). t * 2 ^ k) (div-pow-suc a k),
  ap (λ (t : ℕ). a / 2 ^ suc k * t) (pow-suc 2 k),
)

half-mask : (k : ℕ) → (2 ^ suc k - 1) / 2 ≡ 2 ^ k - 1
half-mask k = omega (arith, pow-suc 2 k, one-le-pow k 2)

over_one : (a : ℕ) → a ≡ a / 2 ^ 0
over_one a = omega arith

times_one : (m : ℕ) → m * 2 ^ 0 ≡ m
times_one m = omega arith

-- A mask whose low `k` bits are clear acts on the rest of the number.
pub bit_and_shifted : (k a m : ℕ) → bit_and a (m * 2 ^ k) ≡ bit_and (a / 2 ^ k) m * 2 ^ k
bit_and_shifted zero a m = ap₂ bit_and (over_one a) (times_one m) ∙ omega arith
bit_and_shifted (suc k) a m = omega (
  arith,
  bit_and_step a (m * 2 ^ suc k),
  ap (bit_and (a / 2)) (half-shift m k),
  ap (λ (t : ℕ). m * t) (pow-suc 2 k),
  ap (λ (t : ℕ). bit_and (a / 2 ^ suc k) m * t) (pow-suc 2 k),
  ap (λ t. bit_and t m * 2 ^ k) (div-pow-suc a k),
  bit_and_shifted k (a / 2) m,
)

-- A mask of `k` ones is the remainder by `2 ^ k`.
pub bit_and_mask : (k a : ℕ) → bit_and a (2 ^ k - 1) ≡ a % 2 ^ k
bit_and_mask zero a = omega (arith, bit_and-zero a)
bit_and_mask (suc k) a = omega (
  arith,
  pow-suc 2 k,
  one-le-pow k 2,
  bit_and_step a (2 ^ suc k - 1),
  ap (bit_and (a / 2)) (half-mask k),
  bit_and_mask k (a / 2),
  mod-pow-suc a k,
)
