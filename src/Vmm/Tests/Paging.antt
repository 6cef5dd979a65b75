-- ===== src/Vmm/Tests/Paging.antt =====
-- Searches and mappings on that machine.
use raccoon_exok.Common.{ℕ, zero, suc, ◌+◌, ◌*◌, ◌%◌, ◌≤◌, ◌<◌, ◌≡◌, ◌≢◌, refl, none, some, arith}
use raccoon_exok.Common.Run.{ok, out_of_fuel}
use raccoon_exok.Pmm.{
  Pmm, physical_to_stivale, get_frame, clear_frame, clear_words, early_loop, align,
}
use raccoon_exok.Vmm.Paging.{next_table, Vm, physical, translate}
use raccoon_exok.Vmm.Unmap.{create_page_directory}
use raccoon_exok.Vmm.Unmap.Directory.{create_page_directory-IsRecursive}
use raccoon_exok.Vmm.Window.{IsRecursive, entry_l4, entry_l3, entry_l2, entry_l1, translate-window}
use raccoon_exok.Vmm.Tables.{OnPath}
use raccoon_exok.Vmm.Search.{search_empty_space, search_available}
use raccoon_exok.Vmm.Search.Available.{search_available-finds}
use raccoon_exok.Vmm.Search.Empty.{search_empty_space-finds, search_empty_space-endless}
use raccoon_exok.Vmm.Map.{kmmap}
use raccoon_exok.Vmm.Map.Page.{kmmap-mapped, kmmap-maps}
use raccoon_exok.Vmm.Tests.Machine.{
  frames, machine, machine-OnPath, full_machine, full_machine-OnPath,
}

-- From page 7, which is in use, page 8 is the next that is free.
search_empty_space-finds_example :
    (search_empty_space 9 0x7000 machine ≡ ok (0x7000 + 1 * 4096))
    × (translate (physical machine) machine.cr3 (0x7000 + 1 * 4096) ≡ none)
unfolding physical_to_stivale
search_empty_space-finds_example =
    search_empty_space-finds machine 0x7000 0x2000 0x3000 0x4000 machine-OnPath 9 1 (omega arith)
      (omega arith) one_used refl
  where
    one_used : (i : ℕ) → i < 1 → physical machine (0x4000 + (7 + i) * 8) ≢ 0
    one_used zero h = omega arith
    one_used (suc i) h = absurd (omega arith)

kmmap-mapped_example : kmmap 0x7010 0x80 2 machine ≡ ok machine
unfolding physical_to_stivale
kmmap-mapped_example =
    kmmap-mapped machine 0x7010 0x80 2 0x2000 0x3000 0x4000 machine-OnPath (omega arith)
      (omega arith)

search_empty_space-endless_example : search_empty_space 100 0x7000 full_machine ≡ out_of_fuel
unfolding physical_to_stivale
search_empty_space-endless_example =
    search_empty_space-endless full_machine 0x7000 0x2000 0x3000 0x4000 full_machine-OnPath 100 full
  where
    full : (i : ℕ) → i < 512 → physical full_machine (0x4000 + i * 8) ≢ 0
    full i h = ground arith

-- The frame manager after its first frame.
abbrev pub taken_frames : Pmm
taken_frames = record frames {
  number_of_frames_without_bitmap_in_c = 1;
  number_of_frames_without_bitmap = 1;
  words = clear_frame 4096 0x100000 frames.words;
}

pub taken-OnPath : OnPath (record machine { pmm = taken_frames }) 0 0 0 0x2000 0x3000 0x4000
unfolding physical_to_stivale clear_frame clear_words next_table
taken-OnPath = record {
  recursive = refl;
  at_l4 = refl;
  at_l3 = refl;
  at_l2 = refl;
  l4_lt = omega arith;
  l3_lt = omega arith;
  l2_lt = omega arith;
}

pub first_frame : get_frame machine.pmm ≡ ok (0x100000, taken_frames)
unfolding get_frame early_loop align
first_frame = refl

kmmap-maps_example :
    (end : Vm) × (kmmap 0x8010 0x80 2 machine ≡ ok end)
    × (translate (physical end) end.cr3 0x8010 ≡ some (0x100000 + 0x8010 % 4096))
unfolding physical_to_stivale
kmmap-maps_example =
    kmmap-maps machine 0x8010 0x80 2 0x2000 0x3000 0x4000 machine-OnPath (omega arith) 0x100000
      taken_frames first_frame refl (omega arith) (omega arith) refl taken-OnPath
      (omega arith, omega arith, omega arith)

-- The loader's directory is the table of level 4, seen through the loader's map.
abbrev loaded : Vm
loaded = record machine { limine_page_directory_addr = 0xffffffff80001000 }

create_page_directory-IsRecursive_example :
    (vm' : Vm) × (create_page_directory loaded ≡ ok (0x100000, vm'))
    × IsRecursive (physical vm') 0x100000
    × (physical vm' 0x100000 ≡ 0)
    × ((k : ℕ)
        → 0 < k
        → k < 512
        → k ≢ 50
        → physical vm' (0x100000 + k * 8)
          ≡ taken_frames.words (physical_to_stivale (0x1000 + k * 8)))
create_page_directory-IsRecursive_example =
    create_page_directory-IsRecursive loaded 0x100000 0x1000 taken_frames first_frame at_loader refl
      refl (omega arith) (omega arith) (omega arith)
  where
    at_loader : loaded.limine_page_directory_addr ≡ physical_to_stivale 0x1000
    at_loader = unfold physical_to_stivale in refl

search_available-finds_example : search_available 9 0x1000 0x1800 machine ≡ ok (0x1000 + 4096)
unfolding physical_to_stivale
search_available-finds_example =
    search_available-finds machine 0x1000 0x1800 0x2000 0x3000 0x4000 machine-OnPath 9 (omega arith)
      (omega arith) (omega arith) (omega arith) three_free
  where
    three_free : (i : ℕ) → 1 ≤ i → i ≤ 3 → physical machine (0x4000 + i * 8) ≡ 0
    three_free i g h = ground arith

translate-window_example :
    (translate (physical machine) 0x1000 (entry_l4 0) ≡ some 0x1000)
    × (translate (physical machine) 0x1000 (entry_l3 0 0) ≡ some 0x2000)
    × (translate (physical machine) 0x1000 (entry_l2 0 0 0) ≡ some 0x3000)
    × (translate (physical machine) 0x1000 (entry_l1 0 0 0 7) ≡ some 0x4038)
unfolding physical_to_stivale next_table
translate-window_example =
    translate-window (physical machine) 0x1000 refl 0 0 0 7 0x2000 0x3000 0x4000 (omega arith)
      (omega arith) (omega arith) (omega arith) refl refl refl
