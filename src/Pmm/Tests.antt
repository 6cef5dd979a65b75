-- ===== src/Pmm/Tests.antt =====
-- A small machine: a region of 2 pages and one of 128, tested and used as an instance.
use raccoon_exok.Common.{
  ℕ, zero, suc, ◌+◌, ◌-◌, ◌<◌, ◌≡◌, refl, ap, ◌∙◌, true, false, List, ◌∷◌, ◌++◌, inl, inr, arith,
  ltb, leb, ◌==◌, if◌then◌else◌, length, replicate,
}
use raccoon_exok.Common.Run.{ok, fault}
use raccoon_exok.Pmm.{
  MmapEntry, LocalisationData, Pmm, align, read_frame, get_frame, init_pmm, free_frame,
  get_size_in_bits, size_loop, store_available, is_usable,
}
use raccoon_exok.Pmm.Regions.{IsRegion, IsMap, total, frame_at, taken}
use raccoon_exok.Pmm.Survey.{usable, pages, blank_entry, get_size_in_bits-usable}
use raccoon_exok.Pmm.Locate.{entry, IsBlank}
use raccoon_exok.Pmm.Alloc.{IsLeastFree, Allocates, get_frame-least, get_frame-Allocates}
use raccoon_exok.Pmm.Boot.{IsBooting, marked, installed_state, init_pmm-IsInstalled}
use raccoon_exok.Pmm.Early.{same_address, early_frame_reissued}
use raccoon_exok.Pmm.Free.{IsInstalled, free_frame-get_frame, double_free}

abbrev low : MmapEntry
low = record { base = 0x100000; length = 0x2000; type = 1; unused = 0 }

abbrev reserved : MmapEntry
reserved = record { base = 0x110000; length = 0x10000; type = 2; unused = 0 }

abbrev high : MmapEntry
high = record { base = 0x200000; length = 0x80000; type = 1; unused = 0 }

abbrev table : List MmapEntry
table = low ∷ high ∷ replicate 18 blank_entry

abbrev no_data : LocalisationData
no_data = record { aligned_base = 0; length = 0; first_frame_number = 0 }

-- As after `get_size_in_bits`, with `n` frames given out from the first region.
abbrev early : ℕ → Pmm
early n = record {
  memmap = λ i. if i == 0 then low else if i == 1 then reserved else high;
  entry_number = 3;
  pg_size = 4096;
  is_bitmap_set = false;
  nframes = 130;
  number_of_frames_without_bitmap = n;
  number_of_frames_without_bitmap_in_c = n;
  available = table;
  loc_datas = replicate 20 no_data;
  bitmap_addr = 0;
  bitmap = λ _. 0;
  words = λ _. 7;
  prev_i = 0;
  initialized = false;
}

low-IsRegion : IsRegion 0 low
low-IsRegion = omega arith

high-IsRegion : IsRegion 0x102000 high
high-IsRegion = omega arith

table-IsMap : IsMap 0 table
table-IsMap = inr (low-IsRegion, inr (high-IsRegion, inl refl))

IsBlank-replicate : (n : ℕ) → IsBlank (replicate n no_data) 0
IsBlank-replicate zero j h g = elim g [ ]
IsBlank-replicate (suc n) zero h g = (no_data, refl, refl)
IsBlank-replicate (suc n) (suc j) h g = IsBlank-replicate n j (omega arith) (omega arith)

early-IsBooting : (n : ℕ) → IsBooting (early n)
unfolding total
early-IsBooting n = record {
  fresh = refl;
  pages = refl;
  memory = λ i. omega arith;
  map = table-IsMap;
  counted = refl;
  few = omega arith;
  blank = IsBlank-replicate 20;
  room = omega arith;
}

-- As after `init_pmm`, with frame 0 in use.
abbrev running : Pmm
running = record (early 1) {
  is_bitmap_set = true;
  initialized = true;
  bitmap = λ i. if i == 0 then 1 else 0;
  loc_datas = entry low 0 ∷ entry high 2 ∷ replicate 18 no_data;
}

running-IsInstalled : IsInstalled running
unfolding total
running-IsInstalled = record {
  ready = record {
    bitmap_set = refl;
    pages = refl;
    words = λ i. ground arith;
    map = table-IsMap;
    counted = refl;
    few = omega arith;
  };
  located = inr (omega arith, refl, inr (omega arith, refl, inl (refl, (no_data, refl, refl))));
}

first_used : (g : ℕ) → g < 1 → read_frame running.bitmap g ≡ 1
unfolding read_frame
first_used zero h = refl
first_used (suc g) h = absurd (omega arith)

running-IsLeastFree : IsLeastFree running 1
unfolding read_frame
running-IsLeastFree = record { free = refl; used = first_used }

align_up : (align 4096 0x1001 ≡ 0x2000) × (align 4096 0x2000 ≡ 0x2000)
unfolding align
align_up = (refl, refl)

get_frame-Allocates_example : Allocates running (get_frame running)
get_frame-Allocates_example = get_frame-Allocates running running-IsInstalled.ready

second_page : get_frame running ≡ ok (0x101000, taken running 1 0x101000)
unfolding frame_at
second_page =
    let (a, found, runs) =
      get_frame-least running 1 running-IsInstalled.ready (omega arith) running-IsLeastFree in
    runs ∙ ap (λ x. ok (x, taken running 1 x)) (same_address found refl)

free_frame-get_frame_example :
    (bitmap : ℕ → ℕ) × (free_frame (0x101000 + 7) (taken running 1 0x101000)
      ≡ ok (record (taken running 1 0x101000) { bitmap = bitmap }))
    × ((g : ℕ) → read_frame bitmap g ≡ read_frame running.bitmap g)
free_frame-get_frame_example =
    free_frame-get_frame running (taken running 1 0x101000) 0x101000 7 running-IsInstalled
      second_page (omega arith)

double_free_example :
    (bitmap : ℕ → ℕ) × (free_frame 0x101000 running ≡ ok (record running { bitmap = bitmap }))
    × (read_frame bitmap 1 ≡ 1)
unfolding frame_at
double_free_example =
    double_free running 1 0x101000 running-IsInstalled refl running-IsLeastFree.free

init_pmm-IsInstalled_example :
    (locs : List LocalisationData) × (init_pmm 0x9000 (early 1)
      ≡ ok (installed_state 0x9000 (early 1) locs))
    × IsInstalled (installed_state 0x9000 (early 1) locs)
    × ((g : ℕ) → g < 192 → read_frame (marked (early 1)) g ≡ (if ltb g 1 then 1 else 0))
init_pmm-IsInstalled_example = init_pmm-IsInstalled 0x9000 (early 1) (early-IsBooting 1)

early_frame_reissued_example :
    (t u w : Pmm) × (get_frame (early 1) ≡ ok (0x200000, t))
    × (init_pmm 0x9000 t ≡ ok u)
    × (get_frame u ≡ ok (0x200000, w))
early_frame_reissued_example =
    early_frame_reissued 0x9000 (early 1) 1 low high (replicate 18 blank_entry) (record {
      booting = early-IsBooting 1;
      early = refl;
      first = refl;
      entries = refl;
      given = refl;
      given_here = refl;
      pages = refl;
      more = omega arith;
      region = low-IsRegion;
      region' = high-IsRegion;
      many = omega arith;
    })

-- As before `get_size_in_bits`.
abbrev unsized : Pmm
unsized = record (early 0) { available = replicate 20 blank_entry; nframes = 0; pg_size = 0 }

get_size_in_bits-usable_example : get_size_in_bits 4096 unsized ≡ (
    let us = usable unsized.memmap 3 0 in
    if leb (length us) 20
    then ok (
      pages 4096 us,
      record unsized {
        pg_size = 4096;
        nframes = pages 4096 us;
        available = us ++ replicate (20 - length us) blank_entry;
      },
    )
    else fault)
unfolding usable pages
get_size_in_bits-usable_example =
    get_size_in_bits-usable 4096 unsized (omega arith) refl (omega arith)

sized : get_size_in_bits 4096 unsized ≡ ok (130, early 0)
unfolding get_size_in_bits size_loop is_usable store_available
sized = refl
