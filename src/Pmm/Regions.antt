-- ===== src/Pmm/Regions.antt =====
-- What the manager promises: the frames of the usable regions, numbered in order.
use raccoon_exok.Common.{
  ℕ, ◌+◌, ◌-◌, ◌*◌, ◌/◌, ◌%◌, ◌^◌, ◌≤◌, ◌<◌, ◌≡◌, ◌⊎◌, inl, inr, Option, none, some, List, [], ◌∷◌,
  arith, ltb, ◌==◌, if◌then◌else◌, Bool-cases,
}
use raccoon_exok.Common.Run.{Run, ok, halted}
use raccoon_exok.Pmm.{MmapEntry, Pmm, flip_frame, clear_frame, region_loop}
use raccoon_exok.Pmm.Align.{align-aligned}

-- The address of frame `k`, counted over all regions up to the entry of length 0.
unfoldable pub frame_at : ℕ → List MmapEntry → Option ℕ
frame_at k [] = none
frame_at k (e ∷ rest) =
    if e.length == 0
    then none
    else if ltb k (e.length / 4096)
    then some (e.base + k * 4096)
    else frame_at (k - e.length / 4096) rest

unfoldable pub total : List MmapEntry → ℕ
total [] = 0
total (e ∷ rest) = if e.length == 0 then 0 else e.length / 4096 + total rest

-- A region of whole pages from `lo` on, within the physical addresses of the architecture.
pub record IsRegion (lo : ℕ) (e : MmapEntry) : Type 0 where
  pub above : lo ≤ e.base
  pub base_aligned : e.base % 4096 ≡ 0
  pub length_aligned : e.length % 4096 ≡ 0
  pub nonempty : 0 < e.length
  pub bounded : e.base + e.length ≤ 2 ^ 52

-- Regions in ascending order, then an entry of length 0.
abbrev pub IsMap : ℕ → List MmapEntry → Type 0
IsMap lo [] = ⊥
IsMap lo (e ∷ rest) = (e.length ≡ 0) ⊎ (IsRegion lo e × IsMap (e.base + e.length) rest)

abbrev pub taken : Pmm → ℕ → ℕ → Pmm
taken s f a = record s { bitmap = flip_frame s.bitmap f; words = clear_frame 4096 a s.words }

abbrev pub allocation : Pmm → ℕ → Option ℕ → Run (ℕ × Pmm)
allocation s f none = halted
allocation s f (some a) = ok (a, taken s f a)

-- The walk over the regions finds the address of the frame, or panics if there is no such frame.
pub region_loop-eq-frame_at :
    (s : Pmm) (f n lo : ℕ) (es : List MmapEntry)
    → s.pg_size ≡ 4096
    → n ≤ 2 ^ 40
    → IsMap lo es
    → region_loop s f n es ≡ allocation s f (frame_at n es)
unfolding region_loop frame_at
region_loop-eq-frame_at s f n lo [] pg small m = absurd m
region_loop-eq-frame_at s f n lo (e ∷ rest) pg small (inl end) = ground arith
region_loop-eq-frame_at s f n lo (e ∷ rest) pg small (inr (r, m)) = simp pg (
    ground (
      arith,
      align-aligned e.base,
      region_loop-eq-frame_at s f (n - e.length / 4096) (e.base + e.length) rest pg (omega arith) m,
    ))

pub frame_at-lt-total :
    (k : ℕ) (es : List MmapEntry) → k < total es → (a : ℕ) × (frame_at k es ≡ some a)
unfolding frame_at total
frame_at-lt-total k [] h = elim h [ ]
frame_at-lt-total k (e ∷ rest) h = elim (Bool-cases (ltb k (e.length / 4096))) [
  | inl here ↦ (e.base + k * 4096, ground arith)
  | inr later ↦
      let (a, found) = frame_at-lt-total (k - e.length / 4096) rest (ground arith) in
      (a, ground arith)
]
