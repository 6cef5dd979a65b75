-- ===== src/Main/Loops.antt =====
-- The loop over the cores in kernel/src/main.c.
use raccoon_exok.Common.{
  ℕ, zero, suc, ◌+◌, ◌-◌, ◌<◌, ◌≤◌, ◌≡◌, refl, ◌∙◌, ap, true, false, ◌||◌, Option, none, some, List,
  ◌==◌, if◌then◌else◌, write, Bool-cases, inl, inr, arith,
}
use raccoon_exok.Common.Run.{ok}
use raccoon_exok.Memory.{Memory, StrAt}
use raccoon_exok.Memory.Text.{codes}
use raccoon_exok.Strings.Equality.{same_text}
use raccoon_exok.Parse.{Init}
use raccoon_exok.Main.{launches, halts, twin_loop, wake_loop, own_program}
use raccoon_exok.Main.Names.{Named, is_hang, is_woken, Distinct, same-same_text, twin_loop-none}

wake-runs :
    (texts : ℕ → List ℕ) (i : ℕ) → is_hang (texts i) || 0 == i ≡ false → is_hang (texts i) ≡ false
wake-runs texts i wake = ground (arith, wake)

is_woken-skip :
    (texts : ℕ → List ℕ) (i e j : ℕ)
    → is_hang (texts i) || 0 == i ≡ true
    → i < e
    → (new old : ℕ)
    → (if is_woken texts (i + 1) e j then new else old)
      ≡ (if is_woken texts i e j then new else old)
is_woken-skip texts i e j skip h new old = elim (Bool-cases (i == j)) [
  | inl here ↦
      let same_core : j ≡ i = ground (arith, here) in
      let at_j : is_hang (texts j) || 0 == j ≡ true =
        ap (λ (m : ℕ). is_hang (texts m) || 0 == m) same_core ∙ skip in
      ground (arith, here, at_j)
  | inr there ↦ ground (arith, there)
]

is_woken-wake :
    (texts : ℕ → List ℕ) (i e j : ℕ)
    → is_hang (texts i) || 0 == i ≡ false
    → i < e
    → (new : ℕ) (old : ℕ → ℕ)
    → (if is_woken texts (i + 1) e j then new else write old i new j)
      ≡ (if is_woken texts i e j then new else old j)
is_woken-wake texts i e j wake h new old = elim (Bool-cases (i == j)) [
  | inl here ↦
      let same_core : j ≡ i = ground (arith, here) in
      let at_j : is_hang (texts j) || 0 == j ≡ false =
        ap (λ (m : ℕ). is_hang (texts m) || 0 == m) same_core ∙ wake in
      ground (arith, here, at_j)
  | inr there ↦ ground (arith, there)
]

module _ (mem : Memory) (fuel hang entry_launch : ℕ) (parsed : Init) (n : ℕ) (texts : ℕ → List ℕ)
    (named : Named mem fuel parsed n texts) (hang_text : StrAt mem hang (codes "HANG")) where
  wake_loop-skip :
      (rounds i : ℕ) (addresses : ℕ → ℕ)
      → i < n
      → is_hang (texts i) || 0 == i ≡ true
      → wake_loop mem fuel hang entry_launch parsed 0 (suc rounds) i addresses
        ≡ wake_loop mem fuel hang entry_launch parsed 0 rounds (i + 1) addresses
  unfolding wake_loop
  wake_loop-skip rounds i addresses h skip =
      let (p, at_p, text_p, short) = named i h in
      ground (
        arith,
        at_p,
        same-same_text mem fuel hang entry_launch p hang (texts i) (codes "HANG") text_p hang_text
            short,
        skip,
      )

  pub wake_loop-twin :
      (rounds i : ℕ) (addresses : ℕ → ℕ) (twin : Option ℕ)
      → i < n
      → is_hang (texts i) || 0 == i ≡ false
      → twin_loop mem fuel hang entry_launch parsed i (i - 1) 1 ≡ ok twin
      → wake_loop mem fuel hang entry_launch parsed 0 (suc rounds) i addresses ≡ (elim twin [
        | none ↦
            wake_loop mem fuel hang entry_launch parsed 0 rounds
              (i + 1)
              (write addresses i entry_launch)
        | some y ↦ ok (addresses, some y)
      ])
  unfolding wake_loop
  wake_loop-twin rounds i addresses twin h runs found =
      let (p, at_p, text_p, short) = named i h in
      ground (
        arith,
        at_p,
        same-same_text mem fuel hang entry_launch p hang (texts i) (codes "HANG") text_p hang_text
            short,
        runs,
        found,
      )

  pub wake_loop-prefix :
      (m i e r : ℕ) (addresses : ℕ → ℕ)
      → i + m ≡ e
      → Distinct texts e
      → e ≤ n
      → (addresses' : ℕ → ℕ) × (wake_loop mem fuel hang entry_launch parsed 0 (m + r) i addresses
          ≡ wake_loop mem fuel hang entry_launch parsed 0 r e addresses')
        × ((j : ℕ) → addresses' j ≡ (if is_woken texts i e j then entry_launch else addresses j))
  wake_loop-prefix zero i e r addresses count distinct h = (
    addresses,
    ap (λ (q : ℕ). wake_loop mem fuel hang entry_launch parsed 0 q i addresses) {x = zero + r}
          {y = r} (omega arith)
        ∙ ap (λ (q : ℕ). wake_loop mem fuel hang entry_launch parsed 0 r q addresses) {x = i}
            {y = e} (omega arith),
    λ j. ground arith,
  )
  wake_loop-prefix (suc m) i e r addresses count distinct h =
      elim (Bool-cases (is_hang (texts i) || 0 == i)) [
        | inl skip ↦
            let (addresses', runs, at) =
              wake_loop-prefix m (i + 1) e r addresses (omega arith) distinct h in
            (
              addresses',
              ap (λ (q : ℕ). wake_loop mem fuel hang entry_launch parsed 0 q i addresses)
                    {x = suc m + r} {y = suc (m + r)} (omega arith)
                  ∙ wake_loop-skip (m + r) i addresses (omega arith) skip
                  ∙ runs,
              λ j. at j ∙ is_woken-skip texts i e j skip (omega arith) entry_launch (addresses j),
            )
        | inr wake ↦
            let next = write addresses i entry_launch in
            let (addresses', runs, at) =
              wake_loop-prefix m (i + 1) e r next (omega arith) distinct h in
            (
              addresses',
              ap (λ (q : ℕ). wake_loop mem fuel hang entry_launch parsed 0 q i addresses)
                    {x = suc m + r} {y = suc (m + r)} (omega arith)
                  ∙ wake_loop-twin (m + r) i addresses none (omega arith) wake (
                      twin_loop-none mem fuel hang entry_launch parsed n texts named hang_text i
                        (i - 1) 1 (omega arith) (omega arith)
                        (λ k a b.
                          distinct i k (omega arith) a (omega arith) (wake-runs texts i wake)))
                  ∙ runs,
              λ j. at j ∙ is_woken-wake texts i e j wake (omega arith) entry_launch addresses,
            )
      ]

  pub wake_loop-zero :
      (i : ℕ) (addresses : ℕ → ℕ)
      → wake_loop mem fuel hang entry_launch parsed 0 0 i addresses ≡ ok (addresses, none)
  unfolding wake_loop
  wake_loop-zero i addresses = refl

  pub own_program-alone :
      n ≡ parsed.required_cores
      → 0 < n
      → ((k : ℕ)
          → 1 ≤ k
          → k < n
          → is_hang (texts 0) ≡ false
          → same_text (texts k) (texts 0) ≡ false)
      → own_program mem fuel hang entry_launch parsed 0
        ≡ ok (if is_hang (texts 0) then halts else launches)
  unfolding own_program
  own_program-alone count some_core differ =
      let (p, at_p, text_p, short) = named 0 some_core in
      let hanging =
        same-same_text mem fuel hang entry_launch p hang (texts 0) (codes "HANG") text_p hang_text
          short in
      elim (Bool-cases (is_hang (texts 0))) [
        | inl hangs ↦ ground (arith, at_p, hanging, hangs)
        | inr runs ↦
            let alone : twin_loop mem fuel hang entry_launch parsed 0 (n - 1) 1 ≡ ok none =
              twin_loop-none mem fuel hang entry_launch parsed n texts named hang_text 0 (n - 1) 1
                some_core (omega arith) (λ k a b. differ k a (omega arith) runs) in
            ground (arith, at_p, hanging, runs, alone, count)
      ]
