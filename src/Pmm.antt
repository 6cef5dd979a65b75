-- ===== src/Pmm.antt =====
-- arch/x86_64/src/pmm.c: the physical memory manager. The file's static variables are the fields
-- of one record. `available` and `loc_datas` are arrays of 20 entries; a loop over one of them ends
-- at the first entry of length 0, and a loop that finds none runs past the array, a `fault`.
pub mod Align
pub mod Alloc
pub mod Bitmap
pub mod Boot
pub mod Early
pub mod Free
pub mod Locate
pub mod Survey
mod Tests
pub mod Regions
use raccoon_exok.Common.{
  ℕ, zero, suc, ◌+◌, ◌-◌, ◌*◌, ◌/◌, ◌%◌, ◌^◌, bit_and, bit_or, bit_xor, Bool, true, false, not,
  ◌&&◌, ◌||◌, List, [], ◌∷◌, ltb, leb, ◌==◌, if◌then◌else◌, drop, set,
}
use raccoon_exok.Common.Run.{Run, ok, halted, fault, out_of_fuel, ◌>>=◌}
use raccoon_exok.Common.Word.{u32, add64, sub64, mul64, ◌<<◌, ◌>>◌}

pub record MmapEntry : Type 0 where
  pub base : ℕ
  pub length : ℕ
  pub type : ℕ
  pub unused : ℕ

-- The memory map that the boot loader hands over: a count and the array behind it.
pub record MemmapTag : Type 0 where
  pub entries : ℕ
  pub memmap : ℕ → MmapEntry

pub record LocalisationData : Type 0 where
  pub aligned_base : ℕ
  pub length : ℕ
  pub first_frame_number : ℕ

-- `prev_i` is the static local of `get_frame`, `initialized` the static flag of `ONCE` in
-- `init_pmm`. `bitmap` is the array at `bitmap_addr`; `words` is the other memory, a 64-bit word
-- at each virtual address.
pub record Pmm : Type 0 where
  pub memmap : ℕ → MmapEntry
  pub entry_number : ℕ
  pub pg_size : ℕ
  pub is_bitmap_set : Bool
  pub nframes : ℕ
  pub number_of_frames_without_bitmap : ℕ
  pub number_of_frames_without_bitmap_in_c : ℕ
  pub available : List MmapEntry
  pub loc_datas : List LocalisationData
  pub bitmap_addr : ℕ
  pub bitmap : ℕ → ℕ
  pub words : ℕ → ℕ
  pub prev_i : ℕ
  pub initialized : Bool

-- `addr & ((uint64_t)-1 * pg_size)`, and one page up if that dropped a part.
unfoldable pub align : ℕ → ℕ → ℕ
align pg_size addr =
    let temp = bit_and addr (mul64 (2 ^ 64 - 1) pg_size) in
    if temp == addr then temp else add64 temp pg_size

abbrev pub update : (ℕ → ℕ) → ℕ → ℕ → ℕ → ℕ
update f i v j = if i == j then v else f j

unfoldable pub set_frame : (ℕ → ℕ) → ℕ → ℕ → ℕ
set_frame bitmap frame =
    update bitmap (frame / 64) (bit_or (bitmap (frame / 64)) (1 << (frame % 64)))

unfoldable pub flip_frame : (ℕ → ℕ) → ℕ → ℕ → ℕ
flip_frame bitmap frame =
    update bitmap (frame / 64) (bit_xor (bitmap (frame / 64)) (1 << (frame % 64)))

unfoldable pub read_frame : (ℕ → ℕ) → ℕ → ℕ
read_frame bitmap frame = bit_and (bitmap (frame / 64) >> (frame % 64)) 1

unfoldable pub physical_to_stivale : ℕ → ℕ
physical_to_stivale x = add64 x 0xffffffff80000000

-- `for (; i < end; i++) *i = 0;` over 64-bit words.
unfoldable pub clear_words : ℕ → ℕ → ℕ → (ℕ → ℕ) → ℕ → ℕ
clear_words zero i end words = words
clear_words (suc rounds) i end words =
    let rest = clear_words rounds (i + 8) end (update words i 0) in
    if ltb i end then rest else words

-- The clearing of one frame, the same in both phases of `get_frame`.
unfoldable pub clear_frame : ℕ → ℕ → (ℕ → ℕ) → ℕ → ℕ
unfolding clear_words physical_to_stivale
clear_frame pg_size frame words =
    clear_words pg_size (physical_to_stivale frame) (physical_to_stivale (add64 frame pg_size))
      words

-- The first phase of `get_frame`, before there is a bitmap: the loop from entry `i` on.
unfoldable pub early_loop : Pmm → ℕ → List MmapEntry → Run (ℕ × Pmm)
early_loop s i [] = fault
early_loop s i (e ∷ rest) =
    let in_c = if ltb s.prev_i i then 0 else s.number_of_frames_without_bitmap_in_c in
    let first = align s.pg_size e.base in
    let current_frame = add64 first (mul64 in_c s.pg_size) in
    let next = early_loop (record s { number_of_frames_without_bitmap_in_c = in_c }) (i + 1) rest in
    if e.length == 0
    then halted
    else if ltb current_frame (sub64 (add64 first e.length) s.pg_size)
    then ok (
      current_frame,
      record s {
        number_of_frames_without_bitmap_in_c = in_c + 1;
        number_of_frames_without_bitmap = s.number_of_frames_without_bitmap + 1;
        words = clear_frame s.pg_size current_frame s.words;
        prev_i = i;
      },
    )
    else next

-- `while (i < nframes / 64 && bitmap_addr[i] == 0xffffffffffffffff) i++;` with `rounds` left.
unfoldable pub first_word : (ℕ → ℕ) → ℕ → ℕ → ℕ
first_word bitmap zero i = i
first_word bitmap (suc rounds) i =
    let rest = first_word bitmap rounds (i + 1) in
    if bitmap i == 0xffffffffffffffff then rest else i

-- `while (bitmap_addr[i] & (1ull << j)) j++;`
unfoldable pub first_clear : ℕ → ℕ → ℕ → Run ℕ
first_clear zero word j = out_of_fuel
first_clear (suc fuel) word j =
    let rest = first_clear fuel word (j + 1) in if bit_and word (1 << j) == 0 then ok j else rest

-- The walk over the regions, with `cur_frame_n` frames to skip; `frame` is `CUR_FRAME_N`.
unfoldable pub region_loop : Pmm → ℕ → ℕ → List MmapEntry → Run (ℕ × Pmm)
region_loop s frame cur_frame_n [] = fault
region_loop s frame cur_frame_n (e ∷ rest) =
    let first = align s.pg_size e.base in
    let current_frame = add64 first (mul64 cur_frame_n s.pg_size) in
    let next = region_loop s frame (sub64 cur_frame_n (e.length / s.pg_size)) rest in
    if e.length == 0
    then halted
    else if leb current_frame (sub64 (add64 first e.length) s.pg_size)
    then ok (
      current_frame,
      record s {
        bitmap = flip_frame s.bitmap frame;
        words = clear_frame s.pg_size current_frame s.words;
      },
    )
    else next

unfoldable pub get_frame : Pmm → Run (ℕ × Pmm)
unfolding early_loop first_word first_clear region_loop
get_frame s =
    if not s.is_bitmap_set
    then early_loop s s.prev_i (drop s.prev_i s.available)
    else let i = first_word s.bitmap (s.nframes / 64) 0 in
      if i == s.nframes / 64
      then halted
      else do j ← first_clear 64 (s.bitmap i) 0; region_loop s (i * 64 + j) (i * 64 + j) s.available

-- `for (i = 0; i < n; i++) bitmap_addr[i] = 0;`
unfoldable pub zero_words : ℕ → (ℕ → ℕ) → ℕ → ℕ
zero_words zero bitmap = bitmap
zero_words (suc n) bitmap = update (zero_words n bitmap) n 0

-- `for (i = 0; i < n; i++) flip_frame(i);`
unfoldable pub flip_frames : ℕ → (ℕ → ℕ) → ℕ → ℕ
flip_frames zero bitmap = bitmap
flip_frames (suc n) bitmap = flip_frame (flip_frames n bitmap) n

-- The loop that fills `loc_datas` from entry `i` on.
unfoldable pub locate :
    ℕ → ℕ → ℕ → List MmapEntry → List LocalisationData → Run (List LocalisationData)
locate pg_size i current_nframes [] locs = fault
locate pg_size i current_nframes (e ∷ rest) locs =
    let base = align pg_size e.base in
    let len = sub64 e.length (sub64 base e.base) in
    let next = locate pg_size (i + 1) (add64 current_nframes (len / 0x1000)) rest (
      set locs i
        (record { aligned_base = base; length = len; first_frame_number = current_nframes })) in
    if e.length == 0 then ok locs else next

unfoldable pub init_pmm : ℕ → Pmm → Run Pmm
unfolding zero_words flip_frames locate
init_pmm virtual_addr s = if s.initialized then ok s else do
  locs ← locate s.pg_size 0 0 s.available s.loc_datas
  ok (record s {
    initialized = true;
    is_bitmap_set = true;
    bitmap_addr = virtual_addr;
    bitmap =
        flip_frames s.number_of_frames_without_bitmap (zero_words (s.nframes / 64 + 1) s.bitmap);
    loc_datas = locs;
  })

unfoldable pub set_memory_map : MemmapTag → Pmm → Pmm
set_memory_map tag s = record s { memmap = tag.memmap; entry_number = tag.entries }

-- `x.type & 1 && !(x.type ^ 1)`
unfoldable pub is_usable : MmapEntry → Bool
is_usable x = not (bit_and x.type 1 == 0) && bit_xor x.type 1 == 0

-- `available[at] = x`, of 20 entries.
unfoldable pub store_available : List MmapEntry → ℕ → MmapEntry → Run (List MmapEntry)
store_available available at x = if ltb at 20 then ok (set available at x) else fault

-- `n / d`: the processor faults when `d` is 0.
abbrev pub divide : (n d : ℕ) → Run ℕ
divide n d = if d == 0 then fault else ok (n / d)

-- The loop over the map with `rounds` entries to go: the frames, and the entries copied.
unfoldable pub size_loop :
    (memmap : ℕ → MmapEntry) (page_size rounds i total_frames available_entries : ℕ)
    → List MmapEntry
    → Run (ℕ × List MmapEntry)
size_loop memmap page_size zero i total_frames available_entries available =
    ok (total_frames, available)
size_loop memmap page_size (suc rounds) i total_frames available_entries available =
    let x = memmap i in
    elim (is_usable x) [
      | true ↦ divide x.length page_size >>= λ frames.
          store_available available available_entries x
          >>= size_loop memmap page_size rounds (i + 1) (add64 total_frames frames)
              (available_entries + 1)
      | false ↦ size_loop memmap page_size rounds (i + 1) total_frames available_entries available
    ]

unfoldable pub get_size_in_bits : ℕ → Pmm → Run (ℕ × Pmm)
get_size_in_bits page_size s = do
  (total_frames, entries) ← size_loop s.memmap page_size s.entry_number 0 0 0 s.available
  ok (total_frames, record s { pg_size = page_size; nframes = total_frames; available = entries })

-- The loop of `free_frame`. There is no `break`: it goes on behind a region that matched.
unfoldable pub free_loop : ℕ → ℕ → List LocalisationData → (ℕ → ℕ) → Run (ℕ → ℕ)
unfolding flip_frame
free_loop pg_size addr [] bitmap = fault
free_loop pg_size addr (l ∷ rest) bitmap =
    let outside = leb (add64 l.aligned_base l.length) addr || ltb addr l.aligned_base in
    let frame_number = add64 l.first_frame_number (sub64 addr l.aligned_base / pg_size) in
    let next =
      free_loop pg_size addr rest (if outside then bitmap else flip_frame bitmap frame_number) in
    if l.length == 0 then ok bitmap else next

-- `address & CLEAN_BITS_MASK`, then the loop.
unfoldable pub free_frame : ℕ → Pmm → Run Pmm
unfolding free_loop
free_frame address s = do
  bitmap ← free_loop s.pg_size (bit_and address 0xfffffffffffff000) s.loc_datas s.bitmap
  ok (record s { bitmap = bitmap })
