-- ===== src/Common/Bits/Step.antt =====
-- One equation for the lowest digit of each native operation, without its fuel.
use Prim.Native.Nat.{
  ℕ, zero, suc, ◌+◌, ◌*◌, ◌/◌, ◌%◌, ◌≤◌, ◌<◌, min, max, differ, digits, bit_and, bit_or, bit_xor,
  bit_and-bitwise, bit_or-bitwise, bit_xor-bitwise,
}
use mathlib.Core.Path.{◌≡◌, refl}
use native.Mathlib.Nat.{le_refl}
use native.Mathlib.Omega.{arith}

-- Fuel of at least `a` is as good as any other such fuel.
module _ (rest : ℕ → ℕ) (digit : ℕ → ℕ → ℕ) where
  enough_fuel : (k l a b : ℕ) → a ≤ k → a ≤ l → digits rest digit k a b ≡ digits rest digit l a b
  enough_fuel zero zero a b h g = refl
  enough_fuel zero (suc l) zero b h g = refl
  enough_fuel zero (suc l) (suc a) b h g = elim h [ ]
  enough_fuel (suc k) zero zero b h g = refl
  enough_fuel (suc k) zero (suc a) b h g = elim g [ ]
  enough_fuel (suc k) (suc l) zero b h g = refl
  enough_fuel (suc k) (suc l) (suc a) b h g =
      rw (enough_fuel k l (suc a / 2) (b / 2) (omega arith) (omega arith))

  lowest_digit :
      (a b : ℕ)
      → digits rest digit (suc a) (suc a) b
        ≡ digits rest digit (suc a / 2) (suc a / 2) (b / 2) * 2 + digit (suc a % 2) (b % 2)
  lowest_digit a b = rw (enough_fuel a (suc a / 2) (suc a / 2) (b / 2) (omega arith) (le_refl _))

module _ (op : ℕ → ℕ → ℕ) (rest : ℕ → ℕ) (digit : ℕ → ℕ → ℕ) where
  -- The operation's lowest digit is `digit` of the operands' lowest digits.
  op_step :
      ((x y : ℕ) → op x y ≡ digits rest digit x x y)
      → ((y : ℕ) → rest y ≡ rest (y / 2) * 2 + digit 0 (y % 2))
      → (x y : ℕ) → op x y ≡ op (x / 2) (y / 2) * 2 + digit (x % 2) (y % 2)
  op_step bitwise base zero y = simp bitwise (base y)
  op_step bitwise base (suc x) y = simp bitwise (lowest_digit rest digit x y)

differ-lt-two : (x y : ℕ) → x < 2 → y < 2 → differ x y ≡ (x + y) % 2
differ-lt-two zero y h g = omega arith
differ-lt-two (suc zero) zero h g = refl
differ-lt-two (suc zero) (suc zero) h g = refl
differ-lt-two (suc zero) (suc (suc y)) h g = absurd (omega arith)
differ-lt-two (suc (suc x)) y h g = absurd (omega arith)

pub bit_xor_step : (x y : ℕ) → bit_xor x y ≡ bit_xor (x / 2) (y / 2) * 2 + (x % 2 + y % 2) % 2
bit_xor_step x y = omega (
  arith,
  op_step bit_xor (λ c. c) differ bit_xor-bitwise
      (λ c. rw (differ-lt-two 0 (c % 2) (omega arith) (omega arith)) (omega arith)) x y,
  differ-lt-two (x % 2) (y % 2) (omega arith) (omega arith),
)

pub bit_or_step : (x y : ℕ) → bit_or x y ≡ bit_or (x / 2) (y / 2) * 2 + max (x % 2) (y % 2)
bit_or_step = op_step bit_or (λ c. c) max bit_or-bitwise (λ c. omega arith)

pub bit_and_step : (x y : ℕ) → bit_and x y ≡ bit_and (x / 2) (y / 2) * 2 + min (x % 2) (y % 2)
bit_and_step = op_step bit_and (λ _. 0) min bit_and-bitwise (λ c. omega arith)

bit_and-zero_fuel : (n a : ℕ) → a < n → bit_and a 0 ≡ 0
bit_and-zero_fuel zero a h = elim h [ ]
bit_and-zero_fuel (suc n) zero h = refl
bit_and-zero_fuel (suc n) (suc a) h =
    omega (arith, bit_and_step (suc a) 0, bit_and-zero_fuel n (suc a / 2) (omega arith))

pub bit_and-zero : (a : ℕ) → bit_and a 0 ≡ 0
bit_and-zero a = bit_and-zero_fuel (suc a) a (omega arith)

bit_xor-zero_fuel : (n a : ℕ) → a < n → bit_xor a 0 ≡ a
bit_xor-zero_fuel zero a h = elim h [ ]
bit_xor-zero_fuel (suc n) zero h = refl
bit_xor-zero_fuel (suc n) (suc a) h =
    omega (arith, bit_xor_step (suc a) 0, bit_xor-zero_fuel n (suc a / 2) (omega arith))

pub bit_xor-zero : (a : ℕ) → bit_xor a 0 ≡ a
bit_xor-zero a = bit_xor-zero_fuel (suc a) a (omega arith)
