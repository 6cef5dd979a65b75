-- ===== src/Main/Names.antt =====
-- The comparisons of the names of programs in kernel/src/main.c.
use raccoon_exok.Common.{
  ℕ, zero, suc, ◌+◌, ◌<◌, ◌≤◌, ◌≡◌, refl, ◌∙◌, ap, Bool, true, false, not, ◌&&◌, ◌||◌, none, some,
  List, length, get_elem?, leb, ltb, ◌==◌, if◌then◌else◌, arith,
}
use raccoon_exok.Common.Run.{ok, ◌>>=◌}
use raccoon_exok.Memory.{Memory, StrAt}
use raccoon_exok.Memory.Text.{codes}
use raccoon_exok.Strings.Equality.{same_text, strcmp-same_text}
use raccoon_exok.Parse.{Init}
use raccoon_exok.Main.{same, twin_loop}

-- The programs of the first `n` cores have the names `texts`, each shorter than `fuel`.
abbrev pub Named : Memory → (fuel : ℕ) → Init → (n : ℕ) → (ℕ → List ℕ) → Type 0
Named mem fuel parsed n texts =
    (i : ℕ)
    → i < n
    → (p : ℕ) × (get_elem? parsed.programs i ≡ some p)
      × StrAt mem p (texts i)
      × (length (texts i) < fuel)

abbrev pub is_hang : List ℕ → Bool
is_hang t = same_text t (codes "HANG")

-- Whether core `j` is one that the core 0 awakes, of those from `i` to `n`.
abbrev pub is_woken : (ℕ → List ℕ) → (i n j : ℕ) → Bool
is_woken texts i n j = leb i j && (ltb j n && not (is_hang (texts j) || 0 == j))

-- No two of the cores 1 to `m - 1` that run a program run the same one.
abbrev pub Distinct : (ℕ → List ℕ) → ℕ → Type 0
Distinct texts m =
    (i k : ℕ)
    → i < m
    → 1 ≤ k
    → k < i
    → is_hang (texts i) ≡ false
    → same_text (texts k) (texts i) ≡ false

module _ (mem : Memory) (fuel hang entry_launch : ℕ) where
  pub same-same_text :
      (p q : ℕ) (s t : List ℕ)
      → StrAt mem p s
      → StrAt mem q t
      → length s < fuel
      → same mem fuel p q ≡ ok (same_text s t)
  unfolding same
  same-same_text p q s t at at' h =
      ap (λ m. m >>= λ differs. ok (not differs)) (strcmp-same_text mem fuel p q s t at at' h)
      ∙ ap ok (not_not (same_text s t))
    where
      not_not : (b : Bool) → not (not b) ≡ b
      not_not b = ground arith

module _ (mem : Memory) (fuel hang entry_launch : ℕ) (parsed : Init) (n : ℕ) (texts : ℕ → List ℕ)
    (named : Named mem fuel parsed n texts) (hang_text : StrAt mem hang (codes "HANG")) where
  twin_loop-step :
      (i rounds y : ℕ)
      → i < n
      → y < n
      → twin_loop mem fuel hang entry_launch parsed i (suc rounds) y ≡ (
          if same_text (texts y) (texts i)
          then ok (some y)
          else twin_loop mem fuel hang entry_launch parsed i rounds (y + 1))
  unfolding twin_loop
  twin_loop-step i rounds y h g =
      let (p, at_p, text_p, short) = named y g in
      let (q, at_q, text_q, short') = named i h in
      ground (
        arith,
        at_p,
        at_q,
        same-same_text mem fuel hang entry_launch p q (texts y) (texts i) text_p text_q short,
      )

  twin_loop-zero : (i y : ℕ) → twin_loop mem fuel hang entry_launch parsed i zero y ≡ ok none
  unfolding twin_loop
  twin_loop-zero i y = refl

  -- No core from `y` on has the program of core `i`.
  pub twin_loop-none :
      (i rounds y : ℕ)
      → i < n
      → y + rounds ≤ n
      → ((k : ℕ) → y ≤ k → k < y + rounds → same_text (texts k) (texts i) ≡ false)
      → twin_loop mem fuel hang entry_launch parsed i rounds y ≡ ok none
  twin_loop-none i zero y h g differ = twin_loop-zero i y
  twin_loop-none i (suc rounds) y h g differ =
      twin_loop-step i rounds y h (omega arith)
      ∙ ground (
        arith,
        differ y (omega arith) (omega arith),
        twin_loop-none i rounds (y + 1) h (omega arith)
            (λ k a b. differ k (omega arith) (omega arith)),
      )

  pub twin_loop-first :
      (i d r y : ℕ)
      → i < n
      → y + d < n
      → ((k : ℕ) → y ≤ k → k < y + d → same_text (texts k) (texts i) ≡ false)
      → same_text (texts (y + d)) (texts i) ≡ true
      → twin_loop mem fuel hang entry_launch parsed i (d + suc r) y ≡ ok (some (y + d))
  twin_loop-first i zero r y h g differ twin =
      ap (λ (q : ℕ). twin_loop mem fuel hang entry_launch parsed i q y) {x = zero + suc r}
        {y = suc r} (omega arith)
      ∙ twin_loop-step i r y h (omega arith)
      ∙ ap (λ b. if b then ok (some y) else twin_loop mem fuel hang entry_launch parsed i r (y + 1))
          (ap (λ (k : ℕ). same_text (texts k) (texts i)) {x = y} {y = y + 0} (omega arith) ∙ twin)
      ∙ ap (λ (k : ℕ). ok (some k)) {x = y} {y = y + 0} (omega arith)
  twin_loop-first i (suc d) r y h g differ twin =
      ap (λ (q : ℕ). twin_loop mem fuel hang entry_launch parsed i q y) {x = suc d + suc r}
        {y = suc (d + suc r)} (omega arith)
      ∙ twin_loop-step i (d + suc r) y h (omega arith)
      ∙ ap
          (λ b.
            if b
            then ok (some y)
            else twin_loop mem fuel hang entry_launch parsed i (d + suc r) (y + 1))
          (differ y (omega arith) (omega arith))
      ∙ twin_loop-first i d r (y + 1) h (omega arith)
          (λ k a b. differ k (omega arith) (omega arith))
          (ap (λ (k : ℕ). same_text (texts k) (texts i)) {x = y + 1 + d} {y = y + suc d}
              (omega arith)
            ∙ twin)
      ∙ ap (λ (k : ℕ). ok (some k)) {x = y + 1 + d} {y = y + suc d} (omega arith)
