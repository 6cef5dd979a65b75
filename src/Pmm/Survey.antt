-- ===== src/Pmm/Survey.antt =====
-- `get_size_in_bits`: the usable entries of the boot loader's map, copied and counted.
use mathlib.Core.List.{append_assoc}
use raccoon_exok.Common.{
  ℕ, zero, suc, ◌+◌, ◌-◌, ◌/◌, ◌^◌, ◌≤◌, ◌<◌, ◌≡◌, refl, sym, ◌∙◌, ap, true, false, List, [], ◌∷◌,
  ◌++◌, inl, inr, arith, ltb, leb, ◌==◌, if◌then◌else◌, Bool-cases, length, set, replicate, ap₂,
  length-append,
}
use raccoon_exok.Common.Run.{Run, ok, fault}
use raccoon_exok.Common.Word.{add64}
use raccoon_exok.Pmm.{MmapEntry, Pmm, store_available, size_loop, get_size_in_bits}
use raccoon_exok.Pmm.Boot.{is_usable_iff}

-- The usable entries among `rounds` entries from index `i` on, in order.
unfoldable pub usable : (ℕ → MmapEntry) → ℕ → ℕ → List MmapEntry
usable memmap zero i = []
usable memmap (suc rounds) i =
    let rest = usable memmap rounds (i + 1) in
    if (memmap i).type == 1 then memmap i ∷ rest else rest

-- The pages of all entries, also of those behind an entry of length 0.
unfoldable pub pages : ℕ → List MmapEntry → ℕ
pages page_size [] = 0
pages page_size (e ∷ rest) = e.length / page_size + pages page_size rest

-- The entries written one by one from index `at` on.
unfoldable pub store_all : List MmapEntry → ℕ → List MmapEntry → List MmapEntry
store_all available at [] = available
store_all available at (e ∷ rest) = store_all (set available at e) (at + 1) rest

module _ (memmap : ℕ → MmapEntry) (page_size rounds i frames at : ℕ)
    (available : List MmapEntry) where
  size_loop-store :
      0 < page_size
      → ((memmap i).type == 1) ≡ true
      → at < 20
      → size_loop memmap page_size (suc rounds) i frames at available
        ≡ size_loop memmap page_size rounds
            (i + 1)
            (add64 frames ((memmap i).length / page_size))
            (at + 1)
            (set available at (memmap i))
  unfolding size_loop store_available
  size_loop-store some_size hit h = ground (arith, is_usable_iff (memmap i))

  size_loop-overrun :
      ((memmap i).type == 1) ≡ true
      → 20 ≤ at
      → size_loop memmap page_size (suc rounds) i frames at available ≡ fault
  unfolding size_loop store_available
  size_loop-overrun hit h = ground (arith, is_usable_iff (memmap i))

  size_loop-skip :
      ((memmap i).type == 1) ≡ false
      → size_loop memmap page_size (suc rounds) i frames at available
        ≡ size_loop memmap page_size rounds (i + 1) frames at available
  unfolding size_loop
  size_loop-skip miss = ground (arith, is_usable_iff (memmap i))

module _ (memmap : ℕ → MmapEntry) (rounds i : ℕ) where
  usable-hit :
      ((memmap i).type == 1) ≡ true
      → usable memmap (suc rounds) i ≡ memmap i ∷ usable memmap rounds (i + 1)
  unfolding usable
  usable-hit hit = ground arith

  usable-miss :
      ((memmap i).type == 1) ≡ false → usable memmap (suc rounds) i ≡ usable memmap rounds (i + 1)
  unfolding usable
  usable-miss miss = ground arith

-- What the loop comes to, with the usable entries `us` ahead.
abbrev Surveyed : ℕ → ℕ → ℕ → List MmapEntry → List MmapEntry → Run (ℕ × List MmapEntry)
Surveyed page_size frames at available us =
    if leb (at + length us) 20
    then ok (frames + pages page_size us, store_all available at us)
    else fault

-- One more usable entry, where there is room and where there is none.
Surveyed-cons :
    (page_size frames at : ℕ) (available us : List MmapEntry) (e : MmapEntry)
    → at < 20
    → frames + pages page_size (e ∷ us) < 2 ^ 64
    → Surveyed page_size (add64 frames (e.length / page_size)) (at + 1) (set available at e) us
      ≡ Surveyed page_size frames at available (e ∷ us)
unfolding pages store_all
Surveyed-cons page_size frames at available us e h g = ground arith

pages-rest :
    (page_size frames : ℕ) (e : MmapEntry) (us : List MmapEntry)
    → frames + pages page_size (e ∷ us) < 2 ^ 64
    → add64 frames (e.length / page_size) + pages page_size us < 2 ^ 64
unfolding pages
pages-rest page_size frames e us g = omega arith

Surveyed-full :
    (page_size frames at : ℕ) (available us : List MmapEntry) (e : MmapEntry)
    → 20 ≤ at
    → Surveyed page_size frames at available (e ∷ us) ≡ fault
Surveyed-full page_size frames at available us e h = ground arith

size_loop-usable :
    (memmap : ℕ → MmapEntry) (page_size rounds i frames at : ℕ) (available : List MmapEntry)
    → 0 < page_size
    → frames + pages page_size (usable memmap rounds i) < 2 ^ 64
    → at ≤ 20
    → size_loop memmap page_size rounds i frames at available
      ≡ Surveyed page_size frames at available (usable memmap rounds i)
size_loop-usable memmap page_size zero i frames at available some_size g h =
    unfold size_loop usable pages store_all in ground arith
size_loop-usable memmap page_size (suc rounds) i frames at available some_size g h =
    elim (Bool-cases ((memmap i).type == 1)) [
      | inr miss ↦
          size_loop-skip memmap page_size rounds i frames at available miss
          ∙ size_loop-usable memmap page_size rounds (i + 1) frames at available some_size
              (rw (usable-miss memmap rounds i miss) at g) h
          ∙ ap (Surveyed page_size frames at available) (sym (usable-miss memmap rounds i miss))
      | inl hit ↦
          let g' : frames + pages page_size (memmap i ∷ usable memmap rounds (i + 1)) < 2 ^ 64 =
            rw (usable-hit memmap rounds i hit) at g in
          rw (usable-hit memmap rounds i hit) (elim (Bool-cases (ltb at 20)) [
            | inl room ↦
                size_loop-store memmap page_size rounds i frames at available some_size hit
                  (ground arith)
                ∙ size_loop-usable memmap page_size rounds (i + 1)
                    (add64 frames ((memmap i).length / page_size)) (at + 1)
                    (set available at (memmap i)) some_size (pages-rest page_size frames _ _ g')
                    (ground arith)
                ∙ Surveyed-cons page_size frames at available (usable memmap rounds (i + 1))
                    (memmap i) (ground arith) g'
            | inr full ↦
                size_loop-overrun memmap page_size rounds i frames at available hit (ground arith)
                ∙ sym (
                    Surveyed-full page_size frames at available (usable memmap rounds (i + 1))
                      (memmap i) (ground arith))
          ])
    ]

abbrev pub blank_entry : MmapEntry
blank_entry = record { base = 0; length = 0; type = 0; unused = 0 }

set-append :
    (done rest : List MmapEntry) (e b : MmapEntry)
    → set (done ++ b ∷ rest) (length done) e ≡ (done ++ e ∷ []) ++ rest
set-append [] rest e b = refl
set-append (d ∷ done) rest e b = ap (λ t. d ∷ t) (set-append done rest e b)

-- Entries written into blank slots stand there in order, and the later slots stay blank.
store_all-blank :
    (us done : List MmapEntry) (left : ℕ)
    → length us ≤ left
    → store_all (done ++ replicate left blank_entry) (length done) us
      ≡ done ++ (us ++ replicate (left - length us) blank_entry)
unfolding store_all
store_all-blank [] done left h = ap (λ n. done ++ replicate n blank_entry) (omega arith)
store_all-blank (e ∷ us) done zero h = elim h [ ]
store_all-blank (e ∷ us) done (suc left) h =
    ap₂ (λ av at. store_all av at us) (set-append done (replicate left blank_entry) e blank_entry)
      (omega (arith, length-append done (e ∷ [])))
    ∙ store_all-blank us (done ++ e ∷ []) left (omega arith)
    ∙ append_assoc done (e ∷ []) _
    ∙ ap (λ n. done ++ e ∷ (us ++ replicate n blank_entry)) (omega arith)

-- On an empty table, for a page size other than 0, and when the page count fits 64 bits, `get_size_in_bits` copies the usable
-- entries of the map, in order, and returns and records their number of pages, if there are at
-- most 20 of them; with more it writes behind the table.
pub get_size_in_bits-usable :
    (page_size : ℕ) (s : Pmm)
    → 0 < page_size
    → s.available ≡ replicate 20 blank_entry
    → pages page_size (usable s.memmap s.entry_number 0) < 2 ^ 64
    → get_size_in_bits page_size s ≡ (
        let us = usable s.memmap s.entry_number 0 in
        if leb (length us) 20
        then ok (
          pages page_size us,
          record s {
            pg_size = page_size;
            nframes = pages page_size us;
            available = us ++ replicate (20 - length us) blank_entry;
          },
        )
        else fault)
unfolding get_size_in_bits
get_size_in_bits-usable page_size s some_size empty g = elim (Bool-cases (leb (length us) 20)) [
  | inl room ↦ ground (arith, loop, store_all-blank us [] 20 (ground arith))
  | inr full ↦ ground (arith, loop)
]
  where
    us : List MmapEntry
    us = usable s.memmap s.entry_number 0

    loop :
        size_loop s.memmap page_size s.entry_number 0 0 0 s.available
        ≡ Surveyed page_size 0 0 (replicate 20 blank_entry) us
    loop =
        ap (size_loop s.memmap page_size s.entry_number 0 0 0) empty
        ∙ size_loop-usable s.memmap page_size s.entry_number 0 0 0 (replicate 20 blank_entry)
            some_size (omega arith) (omega arith)
