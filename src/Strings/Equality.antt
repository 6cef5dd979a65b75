-- ===== src/Strings/Equality.antt =====
-- On texts the three comparisons decide equality, with any fuel above the length of the first.
use native.Mathlib.Nat.{add_assoc, add-zero, zero-add}
use raccoon_exok.Common.{
  ℕ, zero, suc, ◌+◌, ◌<◌, ◌≡◌, refl, ◌∙◌, ap, sym, subst, ◌↔◌, Bool, true, false, not, ◌&&◌, List,
  [], ◌∷◌, arith, ◌==◌, if◌then◌else◌, length,
}
use raccoon_exok.Common.Run.{ok}
use raccoon_exok.Common.Int.{ℤ, pos, negsuc}
use raccoon_exok.Memory.{Memory, StrAt}
use raccoon_exok.Strings.{char_difference, second_strcmp, my_strcmp, strcmp, strlen}

unfoldable pub same_text : List ℕ → List ℕ → Bool
same_text [] [] = true
same_text [] (c ∷ t) = false
same_text (c ∷ s) [] = false
same_text (c ∷ s) (d ∷ t) = c == d && same_text s t

pub same_text_iff : (s t : List ℕ) → (same_text s t ≡ true) ↔ (s ≡ t)
unfolding same_text
same_text_iff [] [] = (λ _. refl, λ _. refl)
same_text_iff [] (d ∷ t) = (λ h. cc, λ h. cc)
same_text_iff (c ∷ s) [] = (λ h. cc, λ h. cc)
same_text_iff (c ∷ s) (d ∷ t) = ground (arith, same_text_iff s t)

-- `*a - *b` where the texts first differ.
unfoldable pub text_difference : List ℕ → List ℕ → ℤ
unfolding char_difference
text_difference [] [] = pos 0
text_difference [] (d ∷ t) = char_difference 0 d
text_difference (c ∷ s) [] = char_difference c 0
text_difference (c ∷ s) (d ∷ t) = if c == d then text_difference s t else char_difference c d

abbrev pub is_zero : ℤ → Bool
is_zero (pos n) = n == 0
is_zero (negsuc n) = false

module _ (mem : Memory) where
  pub my_strcmp-same_text :
      (fuel a b : ℕ) (s t : List ℕ)
      → StrAt mem a s
      → StrAt mem b t
      → length s < fuel
      → my_strcmp mem fuel a b ≡ ok (if same_text s t then 0 else 1)
  unfolding my_strcmp same_text
  my_strcmp-same_text zero a b s t p q h = absurd (omega arith)
  my_strcmp-same_text (suc fuel) a b [] [] p q h = ground arith
  my_strcmp-same_text (suc fuel) a b [] (d ∷ t) p (q, nz, lt, r) h = ground arith
  my_strcmp-same_text (suc fuel) a b (c ∷ s) [] (p, nz, lt, r) q h = ground arith
  my_strcmp-same_text (suc fuel) a b (c ∷ s) (d ∷ t) (p, nz, lt, r) (q, nz', lt', r') h =
      ground (arith, my_strcmp-same_text fuel (a + 1) (b + 1) s t r r' (omega arith))

  pub strcmp-same_text :
      (fuel a b : ℕ) (s t : List ℕ)
      → StrAt mem a s
      → StrAt mem b t
      → length s < fuel
      → strcmp mem fuel a b ≡ ok (not (same_text s t))
  unfolding strcmp same_text
  strcmp-same_text zero a b s t p q h = absurd (omega arith)
  strcmp-same_text (suc fuel) a b [] [] p q h = ground arith
  strcmp-same_text (suc fuel) a b [] (d ∷ t) p (q, nz, lt, r) h = ground arith
  strcmp-same_text (suc fuel) a b (c ∷ s) [] (p, nz, lt, r) q h = ground arith
  strcmp-same_text (suc fuel) a b (c ∷ s) (d ∷ t) (p, nz, lt, r) (q, nz', lt', r') h =
      ground (arith, strcmp-same_text fuel (a + 1) (b + 1) s t r r' (omega arith))

  -- The result is the difference of the first bytes that differ, or 0.
  pub second_strcmp-difference :
      (fuel a b : ℕ) (s t : List ℕ)
      → StrAt mem a s
      → StrAt mem b t
      → length s < fuel
      → second_strcmp mem fuel a b ≡ ok (text_difference s t)
  unfolding second_strcmp text_difference
  second_strcmp-difference zero a b s t p q h = absurd (omega arith)
  second_strcmp-difference (suc fuel) a b [] [] p q h = ground arith
  second_strcmp-difference (suc fuel) a b [] (d ∷ t) p (q, nz, lt, r) h = ground arith
  second_strcmp-difference (suc fuel) a b (c ∷ s) [] (p, nz, lt, r) q h = ground arith
  second_strcmp-difference (suc fuel) a b (c ∷ s) (d ∷ t) (p, nz, lt, r) (q, nz', lt', r') h =
      ground (arith, second_strcmp-difference fuel (a + 1) (b + 1) s t r r' (omega arith))

  pub is_zero-text_difference :
      (a b : ℕ) (s t : List ℕ)
      → StrAt mem a s
      → StrAt mem b t
      → is_zero (text_difference s t) ≡ same_text s t
  unfolding text_difference same_text char_difference
  is_zero-text_difference a b [] [] p q = refl
  is_zero-text_difference a b [] (d ∷ t) p (q, nz, lt, r) = ground arith
  is_zero-text_difference a b (c ∷ s) [] (p, nz, lt, r) q = ground arith
  is_zero-text_difference a b (c ∷ s) (d ∷ t) (p, nz, lt, r) (q, nz', lt', r') =
      ground (arith, is_zero-text_difference (a + 1) (b + 1) s t r r')

  -- On two texts in memory, with fuel above the length of the first, the three comparisons return,
  -- and each says whether the texts are equal: `second_strcmp` and `my_strcmp` by 0, `strcmp` by
  -- `false`.
  pub comparisons_agree :
      (fuel a b : ℕ) (s t : List ℕ)
      → StrAt mem a s
      → StrAt mem b t
      → length s < fuel
      → (z : ℤ) × (second_strcmp mem fuel a b ≡ ok z)
        × (is_zero z ≡ same_text s t)
        × (my_strcmp mem fuel a b ≡ ok (if same_text s t then 0 else 1))
        × (strcmp mem fuel a b ≡ ok (not (same_text s t)))
  comparisons_agree fuel a b s t p q h = (
    text_difference s t,
    second_strcmp-difference fuel a b s t p q h,
    is_zero-text_difference a b s t p q,
    my_strcmp-same_text fuel a b s t p q h,
    strcmp-same_text fuel a b s t p q h,
  )

  strlen-from :
      (fuel str i : ℕ) (s : List ℕ)
      → StrAt mem (str + i) s
      → length s < fuel
      → strlen mem fuel str i ≡ ok (i + length s)
  unfolding strlen
  strlen-from zero str i s p h = absurd (omega arith)
  strlen-from (suc fuel) str i [] p h = ground arith
  strlen-from (suc fuel) str i (c ∷ s) (p, nz, lt, r) h = ground (
    arith,
    strlen-from fuel str (i + 1) s (subst (λ q. StrAt mem q s) (add_assoc str i 1) r) (omega arith),
  )

  -- On a text in memory, with fuel above its length, `strlen` returns the number of bytes before
  -- the 0.
  pub strlen-length :
      (fuel str : ℕ) (s : List ℕ)
      → StrAt mem str s
      → length s < fuel
      → strlen mem fuel str 0 ≡ ok (length s)
  strlen-length fuel str s p h =
      strlen-from fuel str 0 s (subst (λ q. StrAt mem q s) (sym (add-zero str)) p) h
      ∙ ap ok (zero-add (length s))
