-- ===== src/Bootload/Output/Hex.antt =====
-- The hexadecimal texts of arch/x86_64/bootload/scrn.c.
use raccoon_exok.Common.{
  ℕ, zero, suc, ◌+◌, ◌*◌, ◌/◌, ◌%◌, ◌^◌, ◌<◌, ◌≡◌, refl, sym, ap, ap₂, ◌∙◌, ◌==◌, ltb,
  if◌then◌else◌, true, false, List, [], ◌∷◌, ◌++◌, none, some, set, length, length-append,
  replicate, Option-cases, inl, inr, arith,
}
use raccoon_exok.Common.Run.{Run, ok, fault, ◌>>=◌}
use raccoon_exok.Numbers.{hex_digit}
use raccoon_exok.Numbers.Read.{hex_from}
use raccoon_exok.Bootload.Output.{puts, hex_loop, hex_char, reverse_loop, sputhex, strlen_of}
use mathlib.Core.List.{append_assoc}
use native.Mathlib.Nat.{pow-suc}

-- The `n` lowest digits of `nb`, the lowest first.
abbrev pub low_digits : ℕ → ℕ → List ℕ
low_digits zero nb = []
low_digits (suc n) nb = hex_char (nb % 16) ∷ low_digits n (nb / 16)

low_digits-zero : (n : ℕ) → low_digits n 0 ≡ replicate n 48
low_digits-zero zero = refl
low_digits-zero (suc n) = ap (λ ds. 48 ∷ ds) (low_digits-zero n)

set-append :
    (pre rest : List ℕ) (x v : ℕ) → set (pre ++ (x ∷ rest)) (length pre) v ≡ pre ++ (v ∷ rest)
set-append [] rest x v = refl
set-append (y ∷ pre) rest x v = ap (λ zs. y ∷ zs) (set-append pre rest x v)

-- Behind the digits `pre` the loop fills `n` places, of which each holds '0', with the digits of a
-- number below `16 ^ n`.
hex_loop-low_digits :
    (n fuel nb : ℕ) (pre : List ℕ)
    → nb < 16 ^ n
    → n < fuel
    → hex_loop fuel nb (length pre) (pre ++ (replicate n 48 ++ (0 ∷ [])))
      ≡ ok (pre ++ (low_digits n nb ++ (0 ∷ [])))
unfolding hex_loop
hex_loop-low_digits n zero nb pre small enough = absurd (omega arith)
hex_loop-low_digits zero (suc fuel) nb pre small enough = ground arith
hex_loop-low_digits (suc n) (suc fuel) zero pre small enough =
    ap (λ ds. ok (pre ++ (ds ++ (0 ∷ [])))) (sym (low_digits-zero (suc n)))
hex_loop-low_digits (suc n) (suc fuel) (suc b) pre small enough =
    let d : ℕ = hex_char (suc b % 16) in
    let old : List ℕ = replicate n 48 ++ (0 ∷ []) in
    let room : ltb (length pre) (length (pre ++ (48 ∷ old))) ≡ true =
      ground (arith, length-append pre (48 ∷ old)) in
    let rest : Run (List ℕ) =
      hex_loop fuel (suc b / 16) (length pre + 1) (set (pre ++ (48 ∷ old)) (length pre) d) in
    let more : (suc b == 0) ≡ false = ground arith in
    ap
      (λ t.
        if t
        then ok (pre ++ (48 ∷ old))
        else if ltb (length pre) (length (pre ++ (48 ∷ old)))
        then rest
        else fault)
      more
    ∙ ap (λ t. if t then rest else fault) room
    ∙ ap₂ (λ i ds. hex_loop fuel (suc b / 16) i ds) (sym (length-append pre (d ∷ [])))
        (set-append pre old 48 d ∙ sym (append_assoc pre (d ∷ []) old))
    ∙ hex_loop-low_digits n fuel (suc b / 16) (pre ++ (d ∷ [])) (omega (arith, pow-suc 16 n))
        (omega arith)
    ∙ ap ok (append_assoc pre (d ∷ []) (low_digits n (suc b / 16) ++ (0 ∷ [])))

hex_char-digit : (d : ℕ) → d < 16 → hex_digit (hex_char d) ≡ some d
hex_char-digit d h = ground arith

strlen_of-low_digits : (n nb : ℕ) → strlen_of (low_digits n nb ++ (0 ∷ [])) ≡ n
strlen_of-low_digits zero nb = refl
strlen_of-low_digits (suc n) nb = ground (arith, strlen_of-low_digits n (nb / 16))

-- The `n` lowest digits of `nb`, the highest first.
abbrev pub high_digits : ℕ → ℕ → List ℕ
high_digits zero nb = []
high_digits (suc n) nb = high_digits n (nb / 16) ++ (hex_char (nb % 16) ∷ [])

hex_from-snoc :
    (acc v : ℕ) (ds : List ℕ) (c d : ℕ)
    → hex_from acc ds ≡ some v
    → hex_digit c ≡ some d
    → hex_from acc (ds ++ (c ∷ [])) ≡ some (v * 16 + d)
hex_from-snoc acc v [] c d e digit = ground (arith, digit, e)
hex_from-snoc acc v (c' ∷ ds) c d e digit = elim (Option-cases (hex_digit c')) [
  | inl bad ↦ ground (arith, bad, e)
  | inr (d', good) ↦
      ap (λ o. elim o [ none ↦ none | some x ↦ hex_from (acc * 16 + x) (ds ++ (c ∷ [])) ]) good
      ∙ hex_from-snoc (acc * 16 + d') v ds c d
          (ap (λ o. elim o [ none ↦ none | some x ↦ hex_from (acc * 16 + x) ds ]) (sym good) ∙ e)
          digit
]

hex_from-high_digits : (n nb : ℕ) → nb < 16 ^ n → hex_from 0 (high_digits n nb) ≡ some nb
hex_from-high_digits zero nb small = ap some (omega arith)
hex_from-high_digits (suc n) nb small =
    hex_from-snoc 0 (nb / 16) (high_digits n (nb / 16)) (hex_char (nb % 16)) (nb % 16)
      (hex_from-high_digits n (nb / 16) (omega (arith, pow-suc 16 n)))
      (hex_char-digit (nb % 16) (omega arith))
    ∙ ap some (omega arith)

module _ {ℓ} {S : Type ℓ} (emit : (c : ℕ) → S → Run S) (nb : ℕ) (s : S) where
  whole : reverse_loop emit 9 (low_digits 8 nb ++ (0 ∷ [])) s ≡ puts emit (0 ∷ high_digits 8 nb) s
  unfolding reverse_loop puts
  whole = refl

  -- `sputhex` of a number of 32 bits prints a zero byte, the end of `arr`, and then all 8
  -- hexadecimal digits of the number with leading zeros, whose value is the number.
  pub sputhex-digits :
      nb < 2 ^ 32
      → (sputhex emit (replicate 8 48 ++ (0 ∷ [])) nb s ≡ puts emit (0 ∷ high_digits 8 nb) s)
        × (hex_from 0 (high_digits 8 nb) ≡ some nb)
  unfolding sputhex
  sputhex-digits small = (
    ap (λ r. r >>= λ arr. reverse_loop emit (strlen_of arr + 1) arr s)
          (hex_loop-low_digits 8 9 nb [] small (omega arith))
        ∙ ap (λ (n : ℕ). reverse_loop emit (n + 1) (low_digits 8 nb ++ (0 ∷ [])) s)
            (strlen_of-low_digits 8 nb)
        ∙ whole,
    hex_from-high_digits 8 nb small,
  )
