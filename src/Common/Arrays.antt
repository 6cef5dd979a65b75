-- ===== src/Common/Arrays.antt =====
-- Static arrays as functions, and one write to them.
use Prim.Native.Nat.{ℕ}
use mathlib.Core.Path.{◌≡◌}
use raccoon_exok.Common.Tests.{◌==◌, if◌then◌else◌}
use mathlib.Core.Bool.{false}
use native.Mathlib.Omega.{arith}

abbrev pub write {ℓ} : {A : Type ℓ} → (ℕ → A) → ℕ → A → ℕ → A
write f i v j = if i == j then v else f j

module _ {ℓ} {A : Type ℓ} where
  -- Writing back what was there before other writes to the same place restores the array.
  pub write-restores :
      (f g : ℕ → A) (i : ℕ) (v : A)
      → v ≡ f i
      → ((j : ℕ) → (i == j) ≡ false → g j ≡ f j)
      → write g i v ≡ f
  write-restores f g i v e rest = λ k j. at j k
    where
      at : (j : ℕ) → write g i v j ≡ f j
      at j = ground (arith, rest j, e)
