-- ===== src/Bootload/Output/Binary.antt =====
-- The binary texts of arch/x86_64/bootload/scrn.c.
use raccoon_exok.Common.{
  ℕ, zero, suc, ◌+◌, ◌-◌, ◌*◌, ◌/◌, ◌^◌, ◌<◌, ◌≡◌, refl, sym, ap, ◌∙◌, bit_and, ◌==◌, if◌then◌else◌,
  false, List, [], ◌∷◌, arith,
}
use raccoon_exok.Common.Run.{Run, ok, ◌>>=◌}
use raccoon_exok.Common.Bits.Single.{bit, bit-eq-shift, bit-le-one, bit_and-pow, half-pow}
use raccoon_exok.Bootload.Output.{puts, bin_loop, putbin}
use native.Mathlib.Nat.{one-le-pow, pow-suc, div-div-eq-div-mul}

-- The lowest `n` bits of `nb` as characters, the highest first.
abbrev pub binary : ℕ → ℕ → List ℕ
binary zero nb = []
binary (suc n) nb = (48 + bit nb n) ∷ binary n nb

-- The value of such a text behind the number `acc`.
abbrev pub binary_from : ℕ → List ℕ → ℕ
binary_from acc [] = acc
binary_from acc (c ∷ s) = binary_from (acc * 2 + (c - 48)) s

bit_char : (nb k : ℕ) → (if bit_and nb (2 ^ k) == 0 then 48 else 49) ≡ 48 + bit nb k
bit_char nb k = ground (arith, bit_and-pow nb k, bit-le-one nb k, one-le-pow k 2)

-- Behind the higher bits, the text has the value of the number.
binary_from-binary : (n nb : ℕ) → binary_from (nb / 2 ^ n) (binary n nb) ≡ nb
binary_from-binary zero nb = omega arith
binary_from-binary (suc n) nb =
    let halved : nb / 2 ^ suc n ≡ nb / 2 ^ n / 2 =
      ap (λ (t : ℕ). nb / t) (omega (arith, pow-suc 2 n)) ∙ sym (div-div-eq-div-mul nb (2 ^ n) 2) in
    ap (λ (acc : ℕ). binary_from acc (binary n nb)) (omega (arith, halved, bit-eq-shift nb n))
    ∙ binary_from-binary n nb

module _ {ℓ} {S : Type ℓ} (emit : (c : ℕ) → S → Run S) (nb : ℕ) where
  bin_loop-end : (fuel : ℕ) (s : S) → bin_loop emit (suc fuel) nb 0 s ≡ ok s
  unfolding bin_loop
  bin_loop-end fuel s = refl

  bin_loop-binary :
      (k fuel : ℕ) (s : S)
      → k + 1 < fuel
      → bin_loop emit fuel nb (2 ^ k) s ≡ puts emit (binary (suc k) nb) s
  unfolding bin_loop puts
  bin_loop-binary k zero s enough = absurd (omega arith)
  bin_loop-binary k (suc zero) s enough = absurd (omega arith)
  bin_loop-binary zero (suc (suc fuel)) s enough =
      ap (λ (c : ℕ). emit c s >>= λ t. ok t) (bit_char nb 0)
  bin_loop-binary (suc k) (suc (suc fuel)) s enough =
      let more : (2 ^ suc k == 0) ≡ false = ground (arith, one-le-pow (suc k) 2) in
      let rest = λ (v : ℕ).
        emit (if bit_and nb (2 ^ suc k) == 0 then 48 else 49) s >>= bin_loop emit (suc fuel) nb v in
      ap (λ b. if b then ok s else rest (2 ^ suc k / 2 ^ 1)) more
      ∙ ap rest (half-pow k)
      ∙ ap (λ (c : ℕ). emit c s >>= bin_loop emit (suc fuel) nb (2 ^ k)) (bit_char nb (suc k))
      ∙ (λ i. emit (48 + bit nb (suc k)) s >>= λ t. bin_loop-binary k (suc fuel) t (omega arith) i)

  -- `putbin` and `sputbin` print the 8 lowest bits of the number, the highest first, and nothing of
  -- the higher bits: read behind the number divided by 256, the text has the value of the number.
  pub putbin-binary :
      (s : S)
      → (putbin emit nb s ≡ puts emit (binary 8 nb) s) × (binary_from (nb / 256) (binary 8 nb) ≡ nb)
  unfolding putbin
  putbin-binary s = (bin_loop-binary 7 9 s (omega arith), binary_from-binary 8 nb)
