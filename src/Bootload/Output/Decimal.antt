-- ===== src/Bootload/Output/Decimal.antt =====
-- The decimal texts of arch/x86_64/bootload/scrn.c.
use raccoon_exok.Common.{
  ℕ, zero, suc, ◌+◌, ◌-◌, ◌*◌, ◌/◌, ◌^◌, ◌<◌, ◌≤◌, ◌≡◌, refl, ap, ◌∙◌, ◌==◌, ltb, if◌then◌else◌,
  false, Bool-cases, inl, inr, List, [], ◌∷◌, arith,
}
use raccoon_exok.Common.Run.{Run, ok, fault, ◌>>=◌}
use raccoon_exok.Common.Int.{pos}
use raccoon_exok.Common.Word.{u8}
use raccoon_exok.Numbers.Read.{decimal_from, AllDecimal}
use raccoon_exok.Bootload.Output.{puts, count_loop, print_loop, putint}
use native.Mathlib.Nat.{
  add-mul, pow-suc, one-le-pow, mul-div-le, div-lt_iff_lt-mul, lt-mul-div-succ, pow-le-pow_right,
}

-- The digits of `m` from the place of `10 ^ (n - 1)` on.
abbrev pub decimal : ℕ → ℕ → List ℕ
decimal zero m = []
decimal (suc n) m = (48 + m / 10 ^ n) ∷ decimal n (m - m / 10 ^ n * 10 ^ n)

pow_pos : (n : ℕ) → 0 < 10 ^ n
pow_pos n = one-le-pow n 10 (omega arith)

place_lt : (n m : ℕ) → m < 10 ^ suc n → (m / 10 ^ n < 10) × (m - m / 10 ^ n * 10 ^ n < 10 ^ n)
place_lt n m h = (
  (div-lt_iff_lt-mul (pow_pos n)).1 (omega (arith, pow-suc 10 n)),
  omega (arith, lt-mul-div-succ m (pow_pos n), mul-div-le m (10 ^ n)),
)

decimal-AllDecimal : (n m : ℕ) → m < 10 ^ n → AllDecimal (decimal n m)
decimal-AllDecimal zero m h = tt
decimal-AllDecimal (suc n) m h =
    let (digit, rest) = place_lt n m h in
    (ground arith, decimal-AllDecimal n (m - m / 10 ^ n * 10 ^ n) rest)

decimal_from-decimal :
    (n acc m : ℕ) → m < 10 ^ n → decimal_from acc (decimal n m) ≡ acc * 10 ^ n + m
decimal_from-decimal zero acc m h = omega arith
decimal_from-decimal (suc n) acc m h =
    let (digit, rest) = place_lt n m h in
    ap (λ (a : ℕ). decimal_from a (decimal n (m - m / 10 ^ n * 10 ^ n))) {y = acc * 10 + m / 10 ^ n}
      (omega arith)
    ∙ decimal_from-decimal n (acc * 10 + m / 10 ^ n) (m - m / 10 ^ n * 10 ^ n) rest
    ∙ omega (
      arith,
      mul-div-le m (10 ^ n),
      ap (λ (p : ℕ). acc * p) (pow-suc 10 n),
      add-mul (acc * 10) (m / 10 ^ n) (10 ^ n),
    )

-- `n` has exactly `k` decimal digits; 0 has none.
abbrev pub HasDigits : ℕ → ℕ → Type 0
HasDigits zero n = n ≡ 0
HasDigits (suc k) n = (10 ^ k ≤ n) × (n < 10 ^ suc k)

HasDigits-lt : (k n : ℕ) → HasDigits k n → n < 10 ^ k
HasDigits-lt zero n none = omega arith
HasDigits-lt (suc k) n (low, high) = high

HasDigits-step : (k n : ℕ) → HasDigits (suc k) n → HasDigits k (n / 10)
HasDigits-step zero n (low, high) = omega arith
HasDigits-step (suc k) n (low, high) =
    (omega (arith, pow-suc 10 k), omega (arith, pow-suc 10 k, pow-suc 10 (suc k)))

digit_count : (k n : ℕ) → n < 10 ^ k → (j : ℕ) × (j ≤ k) × HasDigits j n
digit_count zero n h = (0, omega arith, omega arith)
digit_count (suc k) n h = elim (Bool-cases (ltb n (10 ^ k))) [
  | inl less ↦ let (j, le, d) = digit_count k n (ground arith) in (j, omega arith, d)
  | inr more ↦ (suc k, omega arith, (ground arith, h))
]

module _ (fuel nb j : ℕ) where
  count_loop-more :
      0 < nb → j < 9 → count_loop (suc fuel) nb (10 ^ j) ≡ count_loop fuel (nb / 10) (10 ^ suc j)
  unfolding count_loop
  count_loop-more some few =
      let fits : 10 ^ suc j ≤ 10 ^ 9 = pow-le-pow_right (omega arith) few in
      ground (arith, pow-suc 10 j, fits)

  count_loop-overflow : 0 < nb → 9 ≤ j → count_loop (suc fuel) nb (10 ^ j) ≡ fault
  unfolding count_loop
  count_loop-overflow some many =
      let large : 10 ^ 9 ≤ 10 ^ j = pow-le-pow_right (omega arith) many in ground (arith, large)

count_loop-end : (fuel j : ℕ) → count_loop (suc fuel) 0 (10 ^ j) ≡ ok (10 ^ j)
unfolding count_loop
count_loop-end fuel j = refl

count_loop-faults :
    (k fuel nb j : ℕ) → 10 ^ k ≤ nb → j + k ≡ 9 → k < fuel → count_loop fuel nb (10 ^ j) ≡ fault
count_loop-faults k zero nb j large nine enough = absurd (omega arith)
count_loop-faults zero (suc fuel) nb j large nine enough =
    count_loop-overflow fuel nb j (omega arith) (omega arith)
count_loop-faults (suc k) (suc fuel) nb j large nine enough =
    count_loop-more fuel nb j (omega (arith, pow_pos (suc k))) (omega arith)
    ∙ count_loop-faults k fuel (nb / 10) (suc j) (omega (arith, pow-suc 10 k)) (omega arith)
        (omega arith)

count_loop-pow :
    (k fuel nb j : ℕ)
    → HasDigits k nb
    → k < fuel
    → j + k < 10
    → count_loop fuel nb (10 ^ j) ≡ ok (10 ^ (j + k))
count_loop-pow k zero nb j digits enough few = absurd (omega arith)
count_loop-pow zero (suc fuel) nb j digits enough few =
    ap (λ n. count_loop (suc fuel) n (10 ^ j)) digits
    ∙ count_loop-end fuel j
    ∙ ap (λ (e : ℕ). ok (10 ^ e)) {y = j + 0} (omega arith)
count_loop-pow (suc k) (suc fuel) nb j digits enough few =
    count_loop-more fuel nb j (omega (arith, digits.0, pow_pos k)) (omega arith)
    ∙ count_loop-pow k fuel (nb / 10) (suc j) (HasDigits-step k nb digits) (omega arith)
        (omega arith)
    ∙ ap (λ (e : ℕ). ok (10 ^ e)) {y = j + suc k} (omega arith)

module _ {ℓ} {S : Type ℓ} (emit : (c : ℕ) → S → Run S) where
  -- The rounds after the first print the digits.
  print_loop-decimal :
      (n fuel m : ℕ) (s : S)
      → m < 10 ^ n
      → n < fuel
      → print_loop emit fuel false 1 m (10 ^ n / 10) s ≡ puts emit (decimal n m) s
  unfolding print_loop puts
  print_loop-decimal n zero m s small enough = absurd (omega arith)
  print_loop-decimal zero (suc fuel) m s small enough = refl
  print_loop-decimal (suc n) (suc fuel) m s small enough =
      let q : ℕ = m / 10 ^ n in
      let (digit, rest) = place_lt n m small in
      let more : (10 ^ n == 0) ≡ false = ground (arith, pow_pos n) in
      let next =
        λ (c count : ℕ). emit c s >>= print_loop emit fuel false 1 (m - q * 10 ^ n) count in
      ap (λ (count : ℕ). print_loop emit (suc fuel) false 1 m count s) {y = 10 ^ n}
        (omega (arith, pow-suc 10 n))
      ∙ ap (λ b. if b then ok s else next (u8 (q + 48)) (10 ^ n / 10)) more
      ∙ ap (λ (c : ℕ). next c (10 ^ n / 10)) {y = 48 + q} (omega arith)
      ∙ (λ i. emit (48 + q) s >>= λ t.
          print_loop-decimal n fuel (m - q * 10 ^ n) t rest (omega arith) i)

  putint-started :
      (k n : ℕ) (s : S)
      → 0 < n
      → k < 10
      → HasDigits k n
      → putint emit (pos n) s ≡ print_loop emit 12 false 0 n (10 ^ k) s
  unfolding putint
  putint-started k n s some few digits =
      let nonzero : (n == 0) ≡ false = ground arith in
      ap
        (λ b.
          if b
          then emit 48 s
          else (count_loop 11 n 1 >>= λ count. print_loop emit 12 false 0 n count s))
        nonzero
      ∙ ap (λ r. r >>= λ count. print_loop emit 12 false 0 n count s)
          (count_loop-pow k 11 n 0 digits (omega arith) (omega arith))
      ∙ ap (λ (e : ℕ). print_loop emit 12 false 0 n (10 ^ e) s) {x = 0 + k} (omega arith)

  print_loop-first :
      (k n : ℕ) (s : S)
      → print_loop emit 12 false 0 n (10 ^ k) s ≡ print_loop emit 11 false 1 n (10 ^ k / 10) s
  unfolding print_loop
  print_loop-first k n s =
      let more : (10 ^ k == 0) ≡ false = ground (arith, pow_pos k) in
      ap (λ b. if b then ok s else print_loop emit 11 false 1 n (10 ^ k / 10) s) more

  -- From any state, `putint` of a positive number below `10 ^ 9` puts one text of decimal digits
  -- whose value is the number, without leading zeros.
  pub putint-decimal :
      (n : ℕ)
      → 0 < n
      → n < 10 ^ 9
      → (k : ℕ) × ((s : S) → putint emit (pos n) s ≡ puts emit (decimal k n) s)
        × AllDecimal (decimal k n)
        × (decimal_from 0 (decimal k n) ≡ n)
        × HasDigits k n
  putint-decimal n some small =
      let (k, few, digits) = digit_count 9 n small in
      let fits = HasDigits-lt k n digits in
      (
        k,
        λ s.
            putint-started k n s some (omega arith) digits
            ∙ print_loop-first k n s
            ∙ print_loop-decimal k 11 n s fits (omega arith),
        decimal-AllDecimal k n fits,
        decimal_from-decimal k 0 n fits ∙ omega arith,
        digits,
      )

  -- A number of 10 digits overflows `count`, which is undefined.
  pub putint-overflow : (n : ℕ) (s : S) → 10 ^ 9 ≤ n → putint emit (pos n) s ≡ fault
  unfolding putint
  putint-overflow n s large =
      let nonzero : (n == 0) ≡ false = ground arith in
      ap
        (λ b.
          if b
          then emit 48 s
          else (count_loop 11 n 1 >>= λ count. print_loop emit 12 false 0 n count s))
        nonzero
      ∙ ap (λ r. r >>= λ count. print_loop emit 12 false 0 n count s)
          (count_loop-faults 9 11 n 0 large refl (omega arith))
