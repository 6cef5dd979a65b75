-- ===== src/Pmm/Locate.antt =====
-- The table that `init_pmm` fills for `free_frame`: the frame number of an address.
use raccoon_exok.Common.{
  ℕ, ◌+◌, ◌-◌, ◌/◌, ◌%◌, ◌^◌, ◌≤◌, ◌<◌, ◌≡◌, ◌≢◌, refl, ◌⊎◌, inl, inr, ◌∙◌, ◌&&◌, Option, none,
  some, List, [], ◌∷◌, arith, ltb, leb, ◌==◌, if◌then◌else◌, Bool-cases, get_elem?, set, drop,
  drop-eq-cons, length, length-set, get_elem?-set_self, get_elem?-set_ne,
}
use raccoon_exok.Common.Run.{ok}
use raccoon_exok.Pmm.{MmapEntry, LocalisationData, flip_frame, locate, free_loop}
use raccoon_exok.Pmm.Align.{align-aligned}
use raccoon_exok.Pmm.Regions.{IsRegion, IsMap, frame_at, total}

-- The number of the frame that holds address `addr`, with `cur` frames before the regions `es`.
unfoldable pub frame_number : ℕ → ℕ → List MmapEntry → Option ℕ
frame_number cur addr [] = none
frame_number cur addr (e ∷ rest) =
    if e.length == 0
    then none
    else if leb e.base addr && ltb addr (e.base + e.length)
    then some (cur + (addr - e.base) / 4096)
    else frame_number (cur + e.length / 4096) addr rest

abbrev pub entry : MmapEntry → ℕ → LocalisationData
entry e cur = record { aligned_base = e.base; length = e.length; first_frame_number = cur }

-- The table `locs` describes the regions `es` from index `i` on.
abbrev pub Located : List LocalisationData → ℕ → ℕ → List MmapEntry → Type 0
Located locs i cur [] = ⊥
Located locs i cur (e ∷ rest) =
    ((e.length ≡ 0) × ((l : LocalisationData) × (get_elem? locs i ≡ some l) × (l.length ≡ 0)))
    ⊎ ((e.length ≢ 0)
        × (get_elem? locs i ≡ some (entry e cur))
        × Located locs (i + 1) (cur + e.length / 4096) rest)

-- Nothing is written at index `i` or behind it: the entries there have length 0.
abbrev pub IsBlank : List LocalisationData → ℕ → Type 0
IsBlank locs i =
    (j : ℕ)
    → i ≤ j
    → j < length locs
    → (l : LocalisationData) × (get_elem? locs j ≡ some l) × (l.length ≡ 0)

IsBlank-set :
    (locs : List LocalisationData) (i : ℕ) (l : LocalisationData)
    → IsBlank locs i
    → IsBlank (set locs i l) (i + 1)
IsBlank-set locs i l blank j h g =
    let (b, found, empty) = blank j (omega arith) (omega (arith, length-set locs i l)) in
    (b, get_elem?-set_ne locs i j l (omega arith) ∙ found, empty)

nonempty : {lo : ℕ} {e : MmapEntry} → IsRegion lo e → e.length ≢ 0
nonempty r = omega arith

-- `locate` succeeds, writes the table of the regions, and keeps what stands before `i`.
pub locate-Located :
    (i cur lo : ℕ) (es : List MmapEntry) (locs : List LocalisationData)
    → IsMap lo es
    → i + length es ≤ length locs
    → IsBlank locs i
    → cur + total es ≤ 2 ^ 40
    → (out : List LocalisationData) × (locate 4096 i cur es locs ≡ ok out)
      × Located out i cur es
      × ((j : ℕ) → j < i → get_elem? out j ≡ get_elem? locs j)
unfolding locate total
locate-Located i cur lo [] locs m fits blank few = absurd m
locate-Located i cur lo (e ∷ rest) locs (inl end) fits blank few =
    (locs, ground arith, inl (end, blank i (omega arith) (omega arith)), λ j h. refl)
locate-Located i cur lo (e ∷ rest) locs (inr (r, m)) fits blank few =
    let (out, runs, located, kept) =
      locate-Located (i + 1) (cur + e.length / 4096) (e.base + e.length) rest
        (set locs i (entry e cur)) m (omega (arith, length-set locs i (entry e cur)))
        (IsBlank-set locs i (entry e cur) blank) (ground arith) in
    (
      out,
      ground (arith, align-aligned e.base),
      inr (
        nonempty r,
        kept i (omega arith) ∙ get_elem?-set_self locs i (entry e cur) (omega arith),
        located,
      ),
      λ j h. kept j (omega arith) ∙ get_elem?-set_ne locs i j (entry e cur) (omega arith),
    )

-- Below the first region there is no frame.
frame_number-below :
    (cur addr lo : ℕ) (es : List MmapEntry)
    → IsMap lo es
    → addr < lo
    → frame_number cur addr es ≡ none
unfolding frame_number
frame_number-below cur addr lo [] m h = absurd m
frame_number-below cur addr lo (e ∷ rest) (inl end) h = ground arith
frame_number-below cur addr lo (e ∷ rest) (inr (r, m)) h = ground (
  arith,
  frame_number-below (cur + e.length / 4096) addr (e.base + e.length) rest m (omega arith),
)

-- A frame is a whole page of the regions.
pub frame_at-page :
    (k lo a : ℕ) (es : List MmapEntry)
    → IsMap lo es
    → frame_at k es ≡ some a
    → (lo ≤ a) × (a % 4096 ≡ 0) × (a + 4096 ≤ 2 ^ 52)
unfolding frame_at
frame_at-page k lo a [] m h = absurd m
frame_at-page k lo a (e ∷ rest) (inl end) h = absurd (ground arith)
frame_at-page k lo a (e ∷ rest) (inr (r, m)) h = elim (Bool-cases (ltb k (e.length / 4096))) [
  | inl here ↦ ground arith
  | inr later ↦
      ground
        (arith, frame_at-page (k - e.length / 4096) (e.base + e.length) a rest m (ground arith))
]

-- The address of a frame, with any offset in the page, has the number of that frame.
pub frame_number-frame_at :
    (k o cur lo a : ℕ) (es : List MmapEntry)
    → IsMap lo es
    → frame_at k es ≡ some a
    → o < 4096
    → frame_number cur (a + o) es ≡ some (cur + k)
unfolding frame_number frame_at
frame_number-frame_at k o cur lo a [] m h g = absurd m
frame_number-frame_at k o cur lo a (e ∷ rest) (inl end) h g = ground arith
frame_number-frame_at k o cur lo a (e ∷ rest) (inr (r, m)) h g =
    elim (Bool-cases (ltb k (e.length / 4096))) [
      | inl here ↦ ground arith
      | inr later ↦
          let found : frame_at (k - e.length / 4096) rest ≡ some a = ground arith in
          ground (
            arith,
            frame_at-page (k - e.length / 4096) (e.base + e.length) a rest m found,
            frame_number-frame_at (k - e.length / 4096) o (cur + e.length / 4096)
                (e.base + e.length) a rest m found g,
          )
    ]

-- Flipping the frame that an address belongs to, or nothing.
abbrev pub freed : (ℕ → ℕ) → Option ℕ → ℕ → ℕ
freed bitmap none = bitmap
freed bitmap (some f) = flip_frame bitmap f

-- The loop of `free_frame` flips exactly the frame of the address.
pub free_loop-eq-freed :
    (addr i cur lo : ℕ) (es : List MmapEntry) (locs : List LocalisationData) (bitmap : ℕ → ℕ)
    → IsMap lo es
    → Located locs i cur es
    → addr < 2 ^ 64
    → cur + total es ≤ 2 ^ 40
    → free_loop 4096 addr (drop i locs) bitmap ≡ ok (freed bitmap (frame_number cur addr es))
unfolding free_loop frame_number total
free_loop-eq-freed addr i cur lo [] locs bitmap m l h few = absurd m
free_loop-eq-freed addr i cur lo (e ∷ rest) locs bitmap m (inl (z, (l, found, end))) h few =
    rw (drop-eq-cons locs i l found) (ground arith)
free_loop-eq-freed addr i cur lo (e ∷ rest) locs bitmap (inl end) (inr (ne, found, l)) h few =
    absurd (ne end)
free_loop-eq-freed addr i cur lo (e ∷ rest) locs bitmap (inr (r, m)) (inr (ne, found, l)) h few =
    rw (drop-eq-cons locs i (entry e cur) found) (
      ground (
        arith,
        frame_number-below (cur + e.length / 4096) addr (e.base + e.length) rest m,
        free_loop-eq-freed addr (i + 1) (cur + e.length / 4096) (e.base + e.length) rest locs bitmap
            m l h (ground arith),
        free_loop-eq-freed addr (i + 1) (cur + e.length / 4096) (e.base + e.length) rest locs
            (flip_frame bitmap (cur + (addr - e.base) / 4096)) m l h (ground arith),
      ))
