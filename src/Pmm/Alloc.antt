-- ===== src/Pmm/Alloc.antt =====
-- `get_frame` once the bitmap is there: it takes the least free frame.
use native.Mathlib.Nat.{one-le-pow, one-mul, zero-mul}
use raccoon_exok.Common.Word.{◌<<◌}
use raccoon_exok.Common.{
  ℕ, zero, suc, ◌+◌, ◌-◌, ◌*◌, ◌/◌, ◌%◌, ◌^◌, ◌≤◌, ◌<◌, bit_and, ◌≡◌, ◌≢◌, sym, subst, ◌∙◌, ap, ◌⊎◌,
  inl, inr, true, false, some, arith, ◌==◌, Bool-cases,
}
use raccoon_exok.Common.Run.{Run, ok, halted}
use raccoon_exok.Common.Bits.Single.{bit, bit-ones, bit_and-pow, all_ones}
use raccoon_exok.Pmm.{Pmm, read_frame, first_word, first_clear, region_loop, get_frame}
use raccoon_exok.Pmm.Bitmap.{IsBitmap, flip_frame-IsBitmap, read_frame-eq-bit, read_frame-le-one}
use raccoon_exok.Pmm.Regions.{
  IsMap, total, frame_at, taken, allocation, region_loop-eq-frame_at, frame_at-lt-total,
}

-- The state between calls once `init_pmm` has run.
pub record IsReady (s : Pmm) : Type 0 where
  pub bitmap_set : s.is_bitmap_set ≡ true
  pub pages : s.pg_size ≡ 4096
  pub words : IsBitmap s.bitmap
  pub map : IsMap 0 s.available
  pub counted : s.nframes ≡ total s.available
  pub few : s.nframes ≤ 2 ^ 40

-- The last frames, fewer than 64, are never handed out.
abbrev pub searched : Pmm → ℕ
searched s = s.nframes / 64 * 64

-- Frame `k` is free, and no searched frame before it is.
pub record IsLeastFree (s : Pmm) (k : ℕ) : Type 0 where
  pub free : read_frame s.bitmap k ≡ 0
  pub used : (g : ℕ) → g < k → read_frame s.bitmap g ≡ 1

module _ (bitmap : ℕ → ℕ) (w : IsBitmap bitmap) where
  -- The word of index `i` holds the frames from `64 i` on.
  bit-eq-read_frame : (i j : ℕ) → j < 64 → bit (bitmap i) j ≡ read_frame bitmap (i * 64 + j)
  bit-eq-read_frame i j h =
      sym (read_frame-eq-bit bitmap (i * 64 + j) ∙ ap₂' (omega arith) (omega arith))
    where
      ap₂' : {a b c d : ℕ} → a ≡ b → c ≡ d → bit (bitmap a) c ≡ bit (bitmap b) d
      ap₂' p q = λ t. bit (bitmap (p t)) (q t)

  word_full :
      (i : ℕ) → ((g : ℕ) → g < i * 64 + 64 → read_frame bitmap g ≡ 1) → bitmap i ≡ 2 ^ 64 - 1
  word_full i used =
      all_ones 64 (bitmap i) (w i) λ j h. bit-eq-read_frame i j h ∙ used (i * 64 + j) (omega arith)

  word_not_full : (k : ℕ) → read_frame bitmap k ≡ 0 → bitmap (k / 64) ≢ 2 ^ 64 - 1
  word_not_full k free e = absurd (
      omega (
        arith,
        read_frame-eq-bit bitmap k,
        ap (λ t. bit t (k % 64)) e,
        bit-ones 64 (k % 64) (omega arith),
      ))

  -- The scan skips the full words and stops at the first other one.
  first_word-full :
      (rounds i : ℕ)
      → ((g : ℕ) → g < (i + rounds) * 64 → read_frame bitmap g ≡ 1)
      → first_word bitmap rounds i ≡ i + rounds
  unfolding first_word
  first_word-full zero i used = omega arith
  first_word-full (suc rounds) i used = ground (
    arith,
    word_full i (λ g h. used g (omega arith)),
    first_word-full rounds (i + 1) (λ g h. used g (omega arith)),
  )

  first_word-free :
      (rounds i k : ℕ)
      → i ≤ k / 64
      → k / 64 < i + rounds
      → read_frame bitmap k ≡ 0
      → ((g : ℕ) → g < k → read_frame bitmap g ≡ 1)
      → first_word bitmap rounds i ≡ k / 64
  unfolding first_word
  first_word-free zero i k h g free used = absurd (omega arith)
  first_word-free (suc rounds) i k h g free used = elim (Bool-cases (i == k / 64)) [
    | inl here ↦ ground (arith, word_not_full k free)
    | inr later ↦ ground (
      arith,
      word_full i (λ g' l. used g' (ground arith)),
      first_word-free rounds (i + 1) k (ground arith) (omega arith) free used,
    )
  ]

test_clear : (word j : ℕ) → bit word j ≡ 0 → bit_and word (1 << j) ≡ 0
test_clear word j h =
    ap (bit_and word) (one-mul _) ∙ bit_and-pow word j ∙ ap (λ (t : ℕ). t * 2 ^ j) h ∙ zero-mul _

test_set : (word j : ℕ) → bit word j ≡ 1 → bit_and word (1 << j) ≢ 0
test_set word j h e = absurd (
    omega (
      arith,
      one-le-pow j 2,
      ap (bit_and word) (one-mul (2 ^ j)),
      bit_and-pow word j,
      ap (λ (t : ℕ). t * 2 ^ j) h,
    ))

-- The scan of a word stops at its first clear bit.
first_clear-ok :
    (fuel word j k : ℕ)
    → j ≤ k
    → k < j + fuel
    → bit word k ≡ 0
    → ((l : ℕ) → l < k → bit word l ≡ 1)
    → first_clear fuel word j ≡ ok k
unfolding first_clear
first_clear-ok zero word j k h g free used = absurd (omega arith)
first_clear-ok (suc fuel) word j k h g free used = elim (Bool-cases (j == k)) [
  | inl here ↦ ground (arith, test_clear word j)
  | inr later ↦ ground (
    arith,
    test_set word j (used j (ground arith)),
    first_clear-ok fuel word (j + 1) k (ground arith) (omega arith) free used,
  )
]

-- The two scans find the least free frame.
get_frame-region_loop :
    (s : Pmm) (k : ℕ)
    → IsReady s
    → k < searched s
    → IsLeastFree s k
    → get_frame s ≡ region_loop s k k s.available
unfolding get_frame
get_frame-region_loop s k ready h least = simp (ready.bitmap_set, word, differs, slot, whole)
  where
    word : first_word s.bitmap (s.nframes / 64) 0 ≡ k / 64
    word =
        first_word-free s.bitmap ready.words (s.nframes / 64) 0 k (omega arith) (omega arith)
          least.free least.used

    differs : (k / 64 == s.nframes / 64) ≡ false
    differs = ground arith

    slot : first_clear 64 (s.bitmap (k / 64)) 0 ≡ ok (k % 64)
    slot =
        first_clear-ok 64 (s.bitmap (k / 64)) 0 (k % 64) (omega arith) (omega arith)
          (sym (read_frame-eq-bit s.bitmap k) ∙ least.free)
          (λ l g.
            bit-eq-read_frame s.bitmap ready.words (k / 64) l (omega arith)
            ∙ least.used (k / 64 * 64 + l) (omega arith))

    whole : k / 64 * 64 + k % 64 ≡ k
    whole = omega arith

-- In a ready state with a free frame among those searched, `get_frame` returns the address of the
-- least one, marks it as used, leaves every other frame as it was, clears the frame, and does not
-- fail.
pub get_frame-least :
    (s : Pmm) (k : ℕ)
    → IsReady s
    → k < searched s
    → IsLeastFree s k
    → (a : ℕ) × (frame_at k s.available ≡ some a) × (get_frame s ≡ ok (a, taken s k a))
get_frame-least s k ready h least =
    let (a, found) = frame_at-lt-total k s.available (omega arith) in
    (
      a,
      found,
      get_frame-region_loop s k ready h least
          ∙ region_loop-eq-frame_at s k k 0 s.available ready.pages (omega arith) ready.map
          ∙ ap (allocation s k) found,
    )

-- With every searched frame in use, `get_frame` panics.
pub get_frame-full :
    (s : Pmm)
    → IsReady s
    → ((g : ℕ) → g < searched s → read_frame s.bitmap g ≡ 1)
    → get_frame s ≡ halted
unfolding get_frame
get_frame-full s ready used =
    ground
      (arith, first_word-full s.bitmap ready.words (s.nframes / 64) 0 (λ g h. used g (omega arith)))

-- A search for the least free frame below `n`, from `g` on.
least_below :
    (bitmap : ℕ → ℕ) (n : ℕ)
    → ((k : ℕ) × (k < n) × (read_frame bitmap k ≡ 0) × ((g : ℕ) → g < k → read_frame bitmap g ≡ 1))
      ⊎ ((g : ℕ) → g < n → read_frame bitmap g ≡ 1)
least_below bitmap zero = inr (λ g h. absurd (omega arith))
least_below bitmap (suc n) = elim (least_below bitmap n) [
  | inl (k, h, free, used) ↦ inl (k, omega arith, free, used)
  | inr used ↦ elim (Bool-cases (read_frame bitmap n == 0)) [
    | inl free ↦ inl (n, omega arith, ground arith, used)
    | inr taken ↦ inr (λ g h. elim (Bool-cases (g == n)) [
      | inl last ↦ ground (arith, read_frame-le-one bitmap n)
      | inr below ↦ used g (ground arith)
    ])
  ]
]

-- What a call of `get_frame` may do in state `s`.
pub data Allocates (s : Pmm) : Run (ℕ × Pmm) → Type 0 where
  takes :
      (k a : ℕ)
      → k < searched s
      → IsLeastFree s k
      → frame_at k s.available ≡ some a
      → Allocates s (ok (a, taken s k a))
  exhausted : ((g : ℕ) → g < searched s → read_frame s.bitmap g ≡ 1) → Allocates s halted

-- In a ready state `get_frame` returns, and its outcome is one of two: the least free frame, which
-- it marks as used, or a panic because every searched frame is in use.
pub get_frame-Allocates : (s : Pmm) → IsReady s → Allocates s (get_frame s)
get_frame-Allocates s ready = elim (least_below s.bitmap (searched s)) [
  | inl (k, h, free, used) ↦
      let (a, found, e) = get_frame-least s k ready h (record { free = free; used = used }) in
      subst (Allocates s) (sym e) (takes k a h (record { free = free; used = used }) found)
  | inr used ↦ subst (Allocates s) (sym (get_frame-full s ready used)) (exhausted used)
]

pub taken-IsReady : (s : Pmm) (k a : ℕ) → IsReady s → IsReady (taken s k a)
taken-IsReady s k a ready = record {
  bitmap_set = ready.bitmap_set;
  pages = ready.pages;
  words = flip_frame-IsBitmap s.bitmap k ready.words;
  map = ready.map;
  counted = ready.counted;
  few = ready.few;
}

-- A call of `get_frame` keeps the state ready.
pub get_frame-IsReady :
    (s : Pmm) (a : ℕ) (t : Pmm) → IsReady s → get_frame s ≡ ok (a, t) → IsReady t
get_frame-IsReady s a t ready e = go (get_frame-Allocates s ready) e
  where
    go : {r : Run (ℕ × Pmm)} → Allocates s r → r ≡ ok (a, t) → IsReady t
    go (takes k b h least found) q = subst IsReady (cc) (taken-IsReady s k b ready)
    go (exhausted used) q = cc
