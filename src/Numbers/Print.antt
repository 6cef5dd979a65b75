-- ===== src/Numbers/Print.antt =====
-- What `dec` and `decX` print, and that the readers give it back.
use raccoon_exok.Common.{
  ℕ, zero, suc, ◌+◌, ◌-◌, ◌*◌, ◌/◌, ◌%◌, ◌^◌, ◌<◌, ◌≤◌, ◌≡◌, ◌≢◌, refl, sym, ap, ap₂, subst, ◌∙◌,
  false, Option, none, some, List, [], ◌∷◌, length, arith, if◌then◌else◌, Bool-cases, inl, inr,
  get_or, ◌==◌,
}
use raccoon_exok.Common.Run.{Run, ok}
use raccoon_exok.Common.Word.{sub64}
use raccoon_exok.Memory.{Memory, put, store, StrAt, StrAt-store}
use raccoon_exok.Numbers.{digit_loop, print_number, dec, dec_x, hex_list, atou, strtoul, hex_digit}
use raccoon_exok.Numbers.Read.{decimal_from, AllDecimal, hex_from, atou-decimal, strtoul-hex}

-- The `n` bytes below `s` are mapped.
abbrev pub Room : Memory → ℕ → ℕ → Type 0
Room mem n s = (p : ℕ) → p < s → s ≤ p + n → (b : ℕ) × (mem p ≡ some b)

back_one : (s : ℕ) → 0 < s → s < 2 ^ 64 → sub64 s 1 ≡ s - 1
back_one s pos small = omega arith

two_back : (s : ℕ) → 1 < s → s < 2 ^ 64 → sub64 s 2 ≡ s - 1 - 1
two_back s pos small = omega arith

-- `x` has at most `n` digits.
abbrev pub Digits : ℕ → ℕ → ℕ → Type 0
Digits base zero x = x ≡ 0
Digits base (suc n) x = Digits base n (x / base)

-- What the loop ends with: a text with property `P 0` at the pointer, which ends where it began.
abbrev pub Printed : (ℕ → List ℕ → Type 0) → ℕ → Run (ℕ × Memory) → Type 0
Printed P end out =
    (p : ℕ) × (mem : Memory) × (t : List ℕ) × (out ≡ ok (p, mem))
    × StrAt mem p t
    × P 0 t
    × (p + length t ≡ end)

module _ (base : ℕ) (list : ℕ → ℕ) (P : ℕ → List ℕ → Type 0)
    (grows : (x : ℕ) (t : List ℕ)
      → x ≢ 0
      → P x t
      → P (x / base) (list (x % base) ∷ t) × (list (x % base) ≢ 0) × (list (x % base) < 256)) where
  put-Room :
      (mem : Memory) (s b n : ℕ)
      → 0 < s
      → s < 2 ^ 64
      → Room mem (suc n) s
      → put mem (sub64 s 1) b ≡ ok (store mem (s - 1) b)
  unfolding put
  put-Room mem s b n pos small room =
      let (old, there) = room (s - 1) (omega arith) (omega arith) in
      ap (λ q. put mem q b) (back_one s pos small) ∙ ground (arith, there)

  Room-store :
      (mem : Memory) (s b n : ℕ) → 0 < s → Room mem (suc n) s → Room (store mem (s - 1) b) n (s - 1)
  Room-store mem s b n pos room p below above =
      let (old, there) = room p (omega arith) (omega arith) in (old, ground (arith, there))

  digit_loop-step :
      (fuel x s n : ℕ) (mem : Memory)
      → (x == 0) ≡ false
      → 0 < s
      → s < 2 ^ 64
      → Room mem (suc n) s
      → digit_loop base list (suc fuel) x s mem
        ≡ digit_loop base list fuel (x / base) (s - 1) (store mem (s - 1) (list (x % base)))
  unfolding digit_loop
  digit_loop-step fuel x s n mem more pos small room =
      simp (more, put-Room mem s (list (x % base)) n pos small room)
        (ap
          (λ (q : ℕ). digit_loop base list fuel (x / base) q (store mem (s - 1) (list (x % base))))
          (back_one s pos small))

  digit_loop-Printed :
      (n x s : ℕ) (mem : Memory) (t : List ℕ)
      → Digits base n x
      → n < s
      → s < 2 ^ 64
      → Room mem n s
      → StrAt mem s t
      → P x t
      → Printed P (s + length t) (digit_loop base list (suc n) x s mem)
  unfolding digit_loop
  digit_loop-Printed zero x s mem t few pos small room at p =
      (s, mem, t, ground arith, at, subst (λ y. P y t) few p, refl)
  digit_loop-Printed (suc n) x s mem t few pos small room at p = elim (Bool-cases (x == 0)) [
    | inl end ↦ (s, mem, t, ground arith, at, subst (λ y. P y t) (ground arith) p, refl)
    | inr more ↦
        let (p', nz, lt) = grows x t (ground arith) p in
        let (q, mem', u, runs, at', p'', ends) =
          digit_loop-Printed n (x / base) (s - 1) (store mem (s - 1) (list (x % base)))
            (list (x % base) ∷ t) few (omega arith) (omega arith)
            (Room-store mem s (list (x % base)) n (omega arith) room)
            (
              ground arith,
              nz,
              lt,
              subst (λ q. StrAt (store mem (s - 1) (list (x % base))) q t) (omega arith)
                  (StrAt-store mem (s - 1) (list (x % base)) s t (omega arith) at),
            )
            p' in
        (
          q,
          mem',
          u,
          digit_loop-step (suc n) x s n mem more (omega arith) small room ∙ runs,
          at',
          p'',
          omega arith,
        )
  ]

  put-ended :
      (mem : Memory) (s n : ℕ)
      → 1 < s
      → s < 2 ^ 64
      → Room mem (suc (suc n)) s
      → (put mem (sub64 s 1) 0 ≡ ok (store mem (s - 1) 0))
        × (put (store mem (s - 1) 0) (sub64 s 2) 48
            ≡ ok (store (store mem (s - 1) 0) (s - 1 - 1) 48))
  put-ended mem s n pos small room = (
    put-Room mem s 0 (suc n) (omega arith) small room,
    ap (λ q. put (store mem (s - 1) 0) q 48)
          (two_back s pos small ∙ sym (back_one (s - 1) (omega arith) (omega arith)))
        ∙ put-Room (store mem (s - 1) 0) (s - 1) 48 n (omega arith) (omega arith)
            (Room-store mem s 0 (suc n) (omega arith) room),
  )

  print_number-start :
      (fuel n x s : ℕ) (mem : Memory)
      → 1 < s
      → s < 2 ^ 64
      → Room mem (suc (suc n)) s
      → print_number base list fuel x s mem ≡ (
          let mem = store mem (s - 1) 0 in
          if x == 0
          then digit_loop base list fuel x (s - 1 - 1) (store mem (s - 1 - 1) 48)
          else digit_loop base list fuel x (s - 1) mem)
  unfolding print_number
  print_number-start fuel n x s mem pos small room =
      let (ended, digit) = put-ended mem s n pos small room in
      simp (ended, digit)
        (ap₂
          (λ (p q : ℕ).
            if x == 0
            then digit_loop base list fuel x p (store (store mem (s - 1) 0) (s - 1 - 1) 48)
            else digit_loop base list fuel x q (store mem (s - 1) 0))
          (two_back s pos small) (back_one s (omega arith) small))

  -- The terminating 0, the digit of zero, and the loop.
  print_number-Printed :
      (n x s : ℕ) (mem : Memory)
      → list 0 ≡ 48
      → ((t : List ℕ) → P 0 t → P 0 (48 ∷ t))
      → Digits base n x
      → P x []
      → n + 2 < s
      → s < 2 ^ 64
      → Room mem (suc (suc n)) s
      → Printed P (s - 1) (print_number base list (suc n) x s mem)
  print_number-Printed n x s mem nought again few p pos small room =
      let start = print_number-start (suc n) n x s mem (omega arith) small room in
      let mem1 = store mem (s - 1) 0 in
      let room1 : Room mem1 (suc n) (s - 1) = Room-store mem s 0 (suc n) (omega arith) room in
      elim (Bool-cases (x == 0)) [
        | inl none_left ↦
            let (q, mem', u, runs, at', p', ends) =
              digit_loop-Printed n x (s - 1 - 1) (store mem1 (s - 1 - 1) 48) (48 ∷ []) few
                (omega arith) (omega arith) (Room-store mem1 (s - 1) 48 n (omega arith) room1)
                (ground arith, omega arith, omega arith, ground arith)
                (subst (λ y. P y (48 ∷ [])) (ground arith)
                  (again [] (subst (λ y. P y []) (ground arith) p))) in
            (q, mem', u, start ∙ rw none_left runs, at', p', omega arith)
        | inr more ↦
            let (q, mem', u, runs, at', p', ends) =
              digit_loop-Printed n x (s - 1) mem1 [] few (omega arith) (omega arith)
                (λ k below above. room1 k below (omega arith)) (ground arith) p in
            (q, mem', u, start ∙ rw more runs, at', p', omega arith)
      ]

abbrev Decimal : ℕ → ℕ → List ℕ → Type 0
Decimal v x t = (decimal_from x t ≡ v) × AllDecimal t

Decimal-grows :
    (v x : ℕ) (t : List ℕ)
    → x ≢ 0
    → Decimal v x t
    → Decimal v (x / 10) ((48 + x % 10) ∷ t) × (48 + x % 10 ≢ 0) × (48 + x % 10 < 256)
Decimal-grows v x t nz (e, all) = (
  (ap (λ (y : ℕ). decimal_from y t) (omega arith) ∙ e, (ground arith, all)),
  omega arith,
  omega arith,
)

hex_list-digit :
    (d : ℕ)
    → d < 16
    → (hex_digit (get_or hex_list d 0) ≡ some d)
      × (get_or hex_list d 0 ≢ 0)
      × (get_or hex_list d 0 < 256)
hex_list-digit d h = ground arith

abbrev Hex : ℕ → ℕ → List ℕ → Type 0
Hex v x t = hex_from x t ≡ some v

Hex-grows :
    (v x : ℕ) (t : List ℕ)
    → x ≢ 0
    → Hex v x t
    → (let c = get_or hex_list (x % 16) 0 in Hex v (x / 16) (c ∷ t) × (c ≢ 0) × (c < 256))
Hex-grows v x t nz e =
    let (digit, visible, byte) = hex_list-digit (x % 16) (omega arith) in
    (
      ap (λ (o : Option ℕ). elim o [ none ↦ none | some d ↦ hex_from (x / 16 * 16 + d) t ]) digit
          ∙ ap (λ (y : ℕ). hex_from y t) (omega arith)
          ∙ e,
      visible,
      byte,
    )

Digits-decimal : (x : ℕ) → x < 2 ^ 64 → Digits 10 20 x
Digits-decimal x h = omega arith

Digits-hex : (x : ℕ) → x < 2 ^ 64 → Digits 16 16 x
Digits-hex x h = omega arith

-- `dec` on any 64-bit number, before an end with 22 mapped bytes below it: it returns, and leaves a
-- text of decimal digits, ended by a 0 right before that end, whose value is the number; `atou` on
-- that text returns the number modulo `2 ^ 32`.
pub atou-dec :
    (x s : ℕ) (mem : Memory)
    → x < 2 ^ 64
    → 22 < s
    → s < 2 ^ 64
    → Room mem 22 s
    → (p : ℕ) × (mem' : Memory) × (t : List ℕ) × (dec 21 x s mem ≡ ok (p, mem'))
      × StrAt mem' p t
      × AllDecimal t
      × (decimal_from 0 t ≡ x)
      × (p + length t ≡ s - 1)
      × (atou mem' s 0 p ≡ ok (x % 2 ^ 32, s - 1))
unfolding dec
atou-dec x s mem h pos small room =
    let (p, mem', t, runs, at, (value, all), ends) =
      print_number-Printed 10 (λ d. 48 + d) (Decimal x) (Decimal-grows x) 20 x s mem refl
        (λ u (e, a). (e, (refl, a))) (Digits-decimal x h) (refl, tt) pos small room in
    (
      p,
      mem',
      t,
      runs,
      at,
      all,
      value,
      ends,
      atou-decimal mem' s 0 p t at all (omega arith) (omega arith)
          ∙ ap₂ (λ (v q : ℕ). ok (v % 2 ^ 32, q)) value ends,
    )

-- `decX` on any 64-bit number, before an end with 18 mapped bytes below it: it returns, and leaves a
-- text of hexadecimal digits, ended by a 0 right before that end; `strtoul` with base 16 on that
-- text returns the number.
pub strtoul-dec_x :
    (x s : ℕ) (mem : Memory)
    → x < 2 ^ 64
    → 18 < s
    → s < 2 ^ 64
    → Room mem 18 s
    → (p : ℕ) × (mem' : Memory) × (t : List ℕ) × (dec_x 17 x s mem ≡ ok (p, mem'))
      × StrAt mem' p t
      × (p + length t ≡ s - 1)
      × (strtoul mem' 16 s 0 p ≡ ok (x, s - 1))
unfolding dec_x
strtoul-dec_x x s mem h pos small room =
    let (p, mem', t, runs, at, value, ends) =
      print_number-Printed 16 (λ d. get_or hex_list d 0) (Hex x) (Hex-grows x) 16 x s mem refl
        (λ u e. e) (Digits-hex x h) refl pos small room in
    (
      p,
      mem',
      t,
      runs,
      at,
      ends,
      strtoul-hex mem' s p t x at value (omega arith)
          ∙ ap₂ (λ (v q : ℕ). ok (v, q)) (omega arith) ends,
    )
