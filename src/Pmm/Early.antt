-- ===== src/Pmm/Early.antt =====
-- Frames handed out before there is a bitmap, and what `init_pmm` makes of them.
use raccoon_exok.Common.{
  ℕ, ◌+◌, ◌*◌, ◌/◌, ◌^◌, ◌≤◌, ◌<◌, ◌≡◌, ◌∙◌, ap, true, false, Option, some, List, ◌∷◌, arith, ltb,
  if◌then◌else◌, drop, ltb-eq-false, lt→ltb,
}
use raccoon_exok.Common.Run.{Run, ok}
use raccoon_exok.Pmm.{MmapEntry, Pmm, clear_frame, early_loop, get_frame, init_pmm}
use raccoon_exok.Pmm.Align.{align-aligned}
use raccoon_exok.Pmm.Regions.{IsRegion, frame_at, taken}
use raccoon_exok.Pmm.Alloc.{IsLeastFree, get_frame-least}
use raccoon_exok.Pmm.Boot.{IsBooting, installed_state, init_pmm-IsInstalled}

-- The state after the early call that takes frame `a` of entry `i`, of which it is number `c`.
abbrev pub early_taken : Pmm → ℕ → ℕ → ℕ → Pmm
early_taken s i c a = record s {
  number_of_frames_without_bitmap_in_c = c + 1;
  number_of_frames_without_bitmap = s.number_of_frames_without_bitmap + 1;
  words = clear_frame 4096 a s.words;
  prev_i = i;
}

-- What the early loop does at entry `i`, with `c` of its pages given: it takes the next page if
-- that is not the last one, and else goes on.
abbrev pub early_entry : Pmm → ℕ → ℕ → MmapEntry → List MmapEntry → Run (ℕ × Pmm)
early_entry s i c e rest =
    if ltb (c + 1) (e.length / 4096)
    then ok (e.base + c * 4096, early_taken s i c (e.base + c * 4096))
    else early_loop (record s { number_of_frames_without_bitmap_in_c = c }) (i + 1) rest

module _ (s : Pmm) (i c : ℕ) (e : MmapEntry) (rest : List MmapEntry) where
  early_entry-next :
      ltb (c + 1) (e.length / 4096) ≡ false
      → early_entry s i c e rest
        ≡ early_loop (record s { number_of_frames_without_bitmap_in_c = c }) (i + 1) rest
  early_entry-next last = rw last

  early_entry-take :
      ltb (c + 1) (e.length / 4096) ≡ true
      → early_entry s i c e rest ≡ ok (e.base + c * 4096, early_taken s i c (e.base + c * 4096))
  early_entry-take more = rw more

early_loop-region :
    (s : Pmm) (i lo : ℕ) (e : MmapEntry) (rest : List MmapEntry)
    → s.pg_size ≡ 4096
    → IsRegion lo e
    → s.number_of_frames_without_bitmap_in_c ≤ 2 ^ 40
    → early_loop s i (e ∷ rest)
      ≡ early_entry s i
          (if ltb s.prev_i i then 0 else s.number_of_frames_without_bitmap_in_c)
          e
          rest
unfolding early_loop
early_loop-region s i lo e rest pg r small = simp pg (ground (arith, align-aligned e.base))

not_behind : (i c : ℕ) → (if ltb i i then 0 else c) ≡ c
not_behind i c = ground arith

behind : (i c : ℕ) → (if ltb i (i + 1) then 0 else c) ≡ 0
behind i c = ground arith

-- Before the bitmap, with pages of 4096 bytes, `e` the page-aligned entry of the last call and at
-- most `2 ^ 40` pages of it given out: a call takes the next page of `e` while that is not its
-- last page, and else looks at the entries behind it.
pub get_frame-early :
    (s : Pmm) (lo : ℕ) (e : MmapEntry) (rest : List MmapEntry)
    → s.is_bitmap_set ≡ false
    → s.pg_size ≡ 4096
    → drop s.prev_i s.available ≡ e ∷ rest
    → IsRegion lo e
    → s.number_of_frames_without_bitmap_in_c ≤ 2 ^ 40
    → get_frame s ≡ early_entry s s.prev_i s.number_of_frames_without_bitmap_in_c e rest
get_frame-early s lo e rest early pg here r small =
    enters
    ∙ ap (early_loop s s.prev_i) here
    ∙ early_loop-region s s.prev_i lo e rest pg r small
    ∙ ap (λ c. early_entry s s.prev_i c e rest)
        (not_behind s.prev_i s.number_of_frames_without_bitmap_in_c)
  where
    enters : get_frame s ≡ early_loop s s.prev_i (drop s.prev_i s.available)
    enters = unfold get_frame in simp early

-- Two regions, of which the first has `n + 1` pages and all but the last of them are handed out.
pub record IsAtLastPage (s : Pmm) (n : ℕ) (e d : MmapEntry) (rest : List MmapEntry) : Type 0 where
  pub booting : IsBooting s
  pub early : s.is_bitmap_set ≡ false
  pub first : s.prev_i ≡ 0
  pub entries : s.available ≡ e ∷ d ∷ rest
  pub given : s.number_of_frames_without_bitmap ≡ n
  pub given_here : s.number_of_frames_without_bitmap_in_c ≡ n
  pub pages : e.length ≡ (n + 1) * 4096
  pub more : 8192 ≤ d.length
  pub region : IsRegion 0 e
  pub region' : IsRegion (e.base + e.length) d
  pub many : n + 66 ≤ s.nframes

module _ (s : Pmm) (n : ℕ) (e d : MmapEntry) (rest : List MmapEntry)
    (at : IsAtLastPage s n e d rest) where
  abbrev spilled : Pmm
  spilled = early_taken s (s.prev_i + 1) 0 (d.base + 0 * 4096)

  spill_test : ltb (s.number_of_frames_without_bitmap_in_c + 1) (e.length / 4096) ≡ false
  spill_test = ltb-eq-false _ _ (omega (arith, at.given_here, at.pages))

  -- The last page of the first region is skipped.
  get_frame-spills : get_frame s ≡ ok (d.base + 0 * 4096, spilled)
  get_frame-spills =
      get_frame-early s 0 e (d ∷ rest) at.early at.booting.pages here at.region small
      ∙ early_entry-next s s.prev_i s.number_of_frames_without_bitmap_in_c e (d ∷ rest) spill_test
      ∙ early_loop-region s (s.prev_i + 1) (e.base + e.length) d rest at.booting.pages at.region'
          small
      ∙ ap (λ c. early_entry s (s.prev_i + 1) c d rest)
          (behind s.prev_i s.number_of_frames_without_bitmap_in_c)
      ∙ early_entry-take s (s.prev_i + 1) 0 d rest
          (lt→ltb 1 (d.length / 4096) (omega (arith, at.more)))
    where
      here : drop s.prev_i s.available ≡ e ∷ d ∷ rest
      here = ap (λ i. drop i s.available) at.first ∙ at.entries

      small : s.number_of_frames_without_bitmap_in_c ≤ 2 ^ 40
      small = omega (arith, at.given_here, at.many, at.booting.few)

  spilled-IsBooting : IsBooting spilled
  spilled-IsBooting = record {
    fresh = at.booting.fresh;
    pages = at.booting.pages;
    memory = at.booting.memory;
    map = at.booting.map;
    counted = at.booting.counted;
    few = at.booting.few;
    blank = at.booting.blank;
    room = at.booting.room;
  }

  frame_at-spilled : frame_at (n + 1) s.available ≡ some d.base
  frame_at-spilled =
      ap (frame_at (n + 1)) at.entries
      ∙ (unfold frame_at in ground (arith, at.pages, at.more, at.region.nonempty))

is_marked : (g m : ℕ) → g < m → ◌≡◌ {A = ℕ} (if ltb g m then 1 else 0) 1
is_marked g m h = ground arith

not_marked : (g m : ℕ) → m ≤ g → ◌≡◌ {A = ℕ} (if ltb g m then 1 else 0) 0
not_marked g m h = ground arith

no_offset : (a : ℕ) → a + 0 * 4096 ≡ a
no_offset a = omega arith

pub same_address : {o : Option ℕ} {a b : ℕ} → o ≡ some a → o ≡ some b → a ≡ b
same_address p q = cc

-- A page that is in use is handed out again: when, before the bitmap, in a state that
-- `init_pmm` can start from (`IsBooting`: pages of 4096 bytes, an ordered map of regions whose pages
-- are all counted, at most `2 ^ 40`, and room for the regions), with the first region current, all
-- pages but the last of the first region are given out, a second region of at least two pages
-- follows, and at least 66 frames more than are given out are counted, the next early call takes the
-- first page of the second region; the bitmap that `init_pmm` then builds marks the last page of the
-- first region in its stead, and the first call after it returns the first page of the second
-- region once more.
pub early_frame_reissued :
    (v : ℕ) (s : Pmm) (n : ℕ) (e d : MmapEntry) (rest : List MmapEntry)
    → IsAtLastPage s n e d rest
    → (t u w : Pmm) × (get_frame s ≡ ok (d.base, t))
      × (init_pmm v t ≡ ok u)
      × (get_frame u ≡ ok (d.base, w))
early_frame_reissued v s n e d rest at =
    let t = spilled s n e d rest at in
    let (locs, runs, installed, marks) =
      init_pmm-IsInstalled v t (spilled-IsBooting s n e d rest at) in
    let least : IsLeastFree (installed_state v t locs) (n + 1) = record {
      free = marks (n + 1) (omega (arith, at.many)) ∙ not_marked _ _ (omega (arith, at.given));
      used = λ g h. marks g (omega (arith, at.many)) ∙ is_marked _ _ (omega (arith, at.given));
    } in
    let (a, found, again) =
      get_frame-least (installed_state v t locs) (n + 1) installed.ready (omega (arith, at.many))
        least in
    (
      t,
      installed_state v t locs,
      taken (installed_state v t locs) (n + 1) a,
      get_frame-spills s n e d rest at ∙ ap (λ x. ok (x, t)) (no_offset d.base),
      runs,
      again
          ∙ ap (λ x. ok (x, taken (installed_state v t locs) (n + 1) a))
              (same_address found (frame_at-spilled s n e d rest at)),
    )
