-- ===== src/Pmm/Boot.antt =====
-- From the boot loader's memory map to a manager that is ready.
use raccoon_exok.Common.{
  ℕ, zero, suc, ◌+◌, ◌*◌, ◌/◌, ◌^◌, ◌≤◌, ◌<◌, ◌≡◌, refl, true, false, List, arith, ltb, ◌==◌,
  if◌then◌else◌, length,
}
use raccoon_exok.Common.Run.{ok}
use raccoon_exok.Common.Bits.Step.{bit_and_step, bit_xor_step, bit_and-zero, bit_xor-zero}
use raccoon_exok.Pmm.{
  MmapEntry, LocalisationData, Pmm, read_frame, flip_frames, zero_words, init_pmm, is_usable,
}
use raccoon_exok.Pmm.Bitmap.{
  IsBitmap, flip_frame-IsBitmap, read_frame-zero_words, read_frame-flip_frames,
}
use raccoon_exok.Pmm.Regions.{IsMap, total}
use raccoon_exok.Pmm.Locate.{IsBlank, locate-Located}
use raccoon_exok.Pmm.Free.{IsInstalled}

-- The state in which `bootstrap_arch` calls `init_pmm`.
pub record IsBooting (s : Pmm) : Type 0 where
  pub fresh : s.initialized ≡ false
  pub pages : s.pg_size ≡ 4096
  pub memory : IsBitmap s.bitmap
  pub map : IsMap 0 s.available
  pub counted : s.nframes ≡ total s.available
  pub few : s.nframes ≤ 2 ^ 40
  pub blank : IsBlank s.loc_datas 0
  pub room : length s.available ≤ length s.loc_datas

flip_frames-IsBitmap : (n : ℕ) (bitmap : ℕ → ℕ) → IsBitmap bitmap → IsBitmap (flip_frames n bitmap)
unfolding flip_frames
flip_frames-IsBitmap zero bitmap h = h
flip_frames-IsBitmap (suc n) bitmap h =
    flip_frame-IsBitmap (flip_frames n bitmap) n (flip_frames-IsBitmap n bitmap h)

zero_words-IsBitmap : (n : ℕ) (bitmap : ℕ → ℕ) → IsBitmap bitmap → IsBitmap (zero_words n bitmap)
unfolding zero_words
zero_words-IsBitmap zero bitmap h i = h i
zero_words-IsBitmap (suc n) bitmap h i = ground (arith, zero_words-IsBitmap n bitmap h i)

abbrev pub marked : Pmm → ℕ → ℕ
marked s = flip_frames s.number_of_frames_without_bitmap (zero_words (s.nframes / 64 + 1) s.bitmap)

abbrev pub installed_state : ℕ → Pmm → List LocalisationData → Pmm
installed_state v s locs = record s {
  initialized = true;
  is_bitmap_set = true;
  bitmap_addr = v;
  bitmap = marked s;
  loc_datas = locs;
}

-- In the state in which it is called, `init_pmm` succeeds and sets the bitmap and the table of
-- `free_frame` only. What it leaves is an installed manager whose used frames are exactly the first
-- ones, as many as were handed out before.
pub init_pmm-IsInstalled :
    (v : ℕ) (s : Pmm)
    → IsBooting s
    → (locs : List LocalisationData) × (init_pmm v s ≡ ok (installed_state v s locs))
      × IsInstalled (installed_state v s locs)
      × ((g : ℕ)
          → g < (s.nframes / 64 + 1) * 64
          → read_frame (marked s) g ≡ (if ltb g s.number_of_frames_without_bitmap then 1 else 0))
unfolding init_pmm
init_pmm-IsInstalled v s b =
    let (locs, runs, located, kept) =
      locate-Located 0 0 0 s.available s.loc_datas b.map (omega (arith, b.room)) b.blank
        (omega (arith, b.counted, b.few)) in
    (
      locs,
      simp (b.fresh, b.pages, runs),
      record {
        ready = record {
          bitmap_set = refl;
          pages = b.pages;
          words =
              flip_frames-IsBitmap s.number_of_frames_without_bitmap _
                (zero_words-IsBitmap (s.nframes / 64 + 1) s.bitmap b.memory);
          map = b.map;
          counted = b.counted;
          few = b.few;
        };
        located = located;
      },
      λ g h. ground (
        arith,
        read_frame-flip_frames s.number_of_frames_without_bitmap
            (zero_words (s.nframes / 64 + 1) s.bitmap) g,
        read_frame-zero_words (s.nframes / 64 + 1) s.bitmap g h,
      ),
    )

-- A second call of `init_pmm` does nothing.
pub init_pmm-once : (v : ℕ) (s : Pmm) → s.initialized ≡ true → init_pmm v s ≡ ok s
unfolding init_pmm
init_pmm-once v s again = rw again

-- `x.type & 1 && !(x.type ^ 1)` tests for the type `usable`, which is 1.
pub is_usable_iff : (e : MmapEntry) → is_usable e ≡ (e.type == 1)
unfolding is_usable
is_usable_iff e = ground (
  arith,
  bit_and_step e.type 1,
  bit_and-zero (e.type / 2),
  bit_xor_step e.type 1,
  bit_xor-zero (e.type / 2),
)
