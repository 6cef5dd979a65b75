-- ===== src/Common/Run.antt =====
-- How a run of kernel code ends.

-- `halted`: the code panicked and stops for good. `fault`: an access outside an array or to an
-- unmapped address, which C leaves undefined. `out_of_fuel`: the loop has not ended yet.
pub data Run {ℓ} (A : Type ℓ) : Type ℓ where
  ok : A → Run A
  halted fault out_of_fuel : Run A

infixl 5 ◌>>=◌ ◌>>◌
abbrev pub ◌>>=◌ {ℓ κ} : {A : Type ℓ} {B : Type κ} → Run A → (A → Run B) → Run B
ok a >>= f = f a
halted >>= f = halted
fault >>= f = fault
out_of_fuel >>= f = out_of_fuel

abbrev pub ◌>>◌ {κ} : {B : Type κ} → Run (Unit {0}) → Run B → Run B
m >> k = m >>= λ _. k
