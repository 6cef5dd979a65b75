-- ===== src/Pmm/Free.antt =====
-- `free_frame` against `get_frame`.
use mathlib.Core.Path.{subst₂}
use raccoon_exok.Common.{
  ℕ, ◌+◌, ◌*◌, ◌/◌, ◌%◌, ◌^◌, ◌≤◌, ◌<◌, bit_and, ◌≡◌, ◌∙◌, ap, none, some, List, [], ◌∷◌, inl, inr,
  arith,
}
use raccoon_exok.Common.Run.{Run, ok}
use raccoon_exok.Pmm.{MmapEntry, Pmm, read_frame, flip_frame, get_frame, free_loop, free_frame}
use raccoon_exok.Pmm.Align.{bit_and-page_mask}
use raccoon_exok.Pmm.Bitmap.{read_frame-flip_frame, read_frame-le-one}
use raccoon_exok.Pmm.Regions.{IsMap, frame_at, taken}
use raccoon_exok.Pmm.Locate.{
  Located, frame_number, frame_at-page, frame_number-frame_at, freed, free_loop-eq-freed,
}
use raccoon_exok.Pmm.Alloc.{
  IsReady, Allocates, takes, exhausted, get_frame-Allocates, taken-IsReady,
}

-- A ready state whose table for `free_frame` describes its regions.
pub record IsInstalled (s : Pmm) : Type 0 where
  pub ready : IsReady s
  pub located : Located s.loc_datas 0 0 s.available

plus_zero : (a : ℕ) → a ≡ a + 0
plus_zero a = omega arith

frame_number-high :
    (cur addr lo : ℕ) (es : List MmapEntry)
    → IsMap lo es
    → 2 ^ 52 ≤ addr
    → frame_number cur addr es ≡ none
unfolding frame_number
frame_number-high cur addr lo [] m h = absurd m
frame_number-high cur addr lo (e ∷ rest) (inl end) h = ground arith
frame_number-high cur addr lo (e ∷ rest) (inr (r, m)) h =
    ground (arith, frame_number-high (cur + e.length / 4096) addr (e.base + e.length) rest m h)

module _ (s : Pmm) (installed : IsInstalled s) where
  free_frame-eq-freed :
      (address addr : ℕ)
      → bit_and address 0xfffffffffffff000 ≡ addr
      → addr < 2 ^ 64
      → free_frame address s
        ≡ ok (record s { bitmap = freed s.bitmap (frame_number 0 addr s.available) })
  unfolding free_frame
  free_frame-eq-freed address addr e h = simp (e, installed.ready.pages, loop)
    where
      loop :
          free_loop 4096 addr s.loc_datas s.bitmap
          ≡ ok (freed s.bitmap (frame_number 0 addr s.available))
      loop =
          free_loop-eq-freed addr 0 0 0 s.available s.loc_datas s.bitmap installed.ready.map
            installed.located h (omega (arith, installed.ready.counted, installed.ready.few))

  -- Freeing any address inside frame `k` flips the bit of `k` and changes nothing else.
  pub free_frame-flips :
      (k a o : ℕ)
      → frame_at k s.available ≡ some a
      → o < 4096
      → free_frame (a + o) s ≡ ok (record s { bitmap = flip_frame s.bitmap k })
  free_frame-flips k a o found h =
      free_frame-eq-freed (a + o) a masked (omega (arith, page))
      ∙ ap (λ n. ok (record s { bitmap = freed s.bitmap n })) number
    where
      page : (0 ≤ a) × (a % 4096 ≡ 0) × (a + 4096 ≤ 2 ^ 52)
      page = frame_at-page k 0 a s.available installed.ready.map found

      masked : bit_and (a + o) 0xfffffffffffff000 ≡ a
      masked = bit_and-page_mask (a + o) (omega (arith, page)) ∙ omega (arith, page)

      number : frame_number 0 a s.available ≡ some k
      number =
          ap (λ x. frame_number 0 x s.available) (plus_zero a)
          ∙ frame_number-frame_at k 0 0 0 a s.available installed.ready.map found (omega arith)
          ∙ ap some (omega arith)

  -- In an installed manager, an address from `2 ^ 52` on, such as a page table entry with its bit
  -- 63 set, frees nothing: `free_frame` returns the state unchanged.
  pub free_frame-high :
      (address : ℕ) → 2 ^ 52 ≤ address → address < 2 ^ 64 → free_frame address s ≡ ok s
  free_frame-high address h g =
      free_frame-eq-freed address (address / 4096 * 4096) (bit_and-page_mask address g)
        (omega arith)
      ∙ ap (λ n. ok (record s { bitmap = freed s.bitmap n }))
          (frame_number-high 0 (address / 4096 * 4096) 0 s.available installed.ready.map
            (omega arith))

taken-IsInstalled : (s : Pmm) (k a : ℕ) → IsInstalled s → IsInstalled (taken s k a)
taken-IsInstalled s k a i = record { ready = taken-IsReady s k a i.ready; located = i.located }

-- In an installed manager, freeing the frame that `get_frame` returned, by any address inside it,
-- succeeds and gives every frame the state that it had before.
pub free_frame-get_frame :
    (s t : Pmm) (a o : ℕ)
    → IsInstalled s
    → get_frame s ≡ ok (a, t)
    → o < 4096
    → (bitmap : ℕ → ℕ) × (free_frame (a + o) t ≡ ok (record t { bitmap = bitmap }))
      × ((g : ℕ) → read_frame bitmap g ≡ read_frame s.bitmap g)
free_frame-get_frame s t a o i e h = go (get_frame-Allocates s i.ready) e
  where
    Restored : Pmm → ℕ → Type 0
    Restored u b =
        (bitmap : ℕ → ℕ) × (free_frame (b + o) u ≡ ok (record u { bitmap = bitmap }))
        × ((g : ℕ) → read_frame bitmap g ≡ read_frame s.bitmap g)

    go : {r : Run (ℕ × Pmm)} → Allocates s r → r ≡ ok (a, t) → Restored t a
    go (takes k b lt least found) q = subst₂ Restored (cc) (cc) (
      flip_frame (flip_frame s.bitmap k) k,
      free_frame-flips (taken s k b) (taken-IsInstalled s k b i) k b o found h,
      λ g. ground (
        arith,
        read_frame-flip_frame (flip_frame s.bitmap k) k g,
        read_frame-flip_frame s.bitmap k g,
        read_frame-le-one s.bitmap g,
      ),
    )
    go (exhausted used) q = cc

-- In an installed manager, freeing a frame that is already free succeeds and marks it as used: the
-- code flips the bit and does not look at it first.
pub double_free :
    (s : Pmm) (k a : ℕ)
    → IsInstalled s
    → frame_at k s.available ≡ some a
    → read_frame s.bitmap k ≡ 0
    → (bitmap : ℕ → ℕ) × (free_frame a s ≡ ok (record s { bitmap = bitmap }))
      × (read_frame bitmap k ≡ 1)
double_free s k a i found free = (
  flip_frame s.bitmap k,
  ap (λ x. free_frame x s) (plus_zero a) ∙ free_frame-flips s i k a 0 found (omega arith),
  ground (arith, read_frame-flip_frame s.bitmap k k),
)
