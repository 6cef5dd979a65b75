-- ===== src/Vmm/Tests/Machine.antt =====
-- A machine with tables of the four levels at 0x1000, 0x2000, 0x3000 and 0x4000, on the path of the
-- addresses below 0x200000, where page 7 is mapped, and a frame manager before its bitmap.
use raccoon_exok.Common.{
  ℕ, ◌+◌, ◌%◌, ◌^◌, ◌/◌, refl, false, ◌∷◌, ◌==◌, if◌then◌else◌, replicate, arith,
}
use raccoon_exok.Pmm.{Pmm, physical_to_stivale}
use raccoon_exok.Vmm.Paging.{Vm, next_table}
use raccoon_exok.Vmm.Tables.{OnPath}

-- The memory at physical addresses.
abbrev pub ram : ℕ → ℕ
ram p =
    if p == 0x1190
    then 0x1001
    else if p == 0x1000
    then 0x2001
    else if p == 0x2000
    then 0x3001
    else if p == 0x3000
    then 0x4001
    else if p == 0x4038
    then 0x9003
    else 0

abbrev pub frames : Pmm
frames = record {
  memmap = λ _. record { base = 0; length = 0; type = 0; unused = 0 };
  entry_number = 0;
  pg_size = 4096;
  is_bitmap_set = false;
  nframes = 0;
  number_of_frames_without_bitmap = 0;
  number_of_frames_without_bitmap_in_c = 0;
  available =
      record { base = 0x100000; length = 0x100000; type = 1; unused = 0 }
      ∷ replicate 19 (record { base = 0; length = 0; type = 0; unused = 0 });
  loc_datas = replicate 20 (record { aligned_base = 0; length = 0; first_frame_number = 0 });
  bitmap_addr = 0;
  bitmap = λ _. 0;
  words = λ a. ram ((a + 0x80000000) % 2 ^ 64);
  prev_i = 0;
  initialized = false;
}

abbrev pub machine : Vm
machine = record { cr3 = 0x1000; limine_page_directory_addr = 0; pmm = frames }

pub machine-OnPath : OnPath machine 0 0 0 0x2000 0x3000 0x4000
unfolding physical_to_stivale next_table
machine-OnPath = record {
  recursive = refl;
  at_l4 = refl;
  at_l3 = refl;
  at_l2 = refl;
  l4_lt = omega arith;
  l3_lt = omega arith;
  l2_lt = omega arith;
}

-- The same machine with every entry of the last table in use.
abbrev pub full_ram : ℕ → ℕ
full_ram p = if p / 4096 == 4 then 0x9003 else ram p

abbrev pub full_machine : Vm
full_machine = record machine {
  pmm = record frames { words = λ a. full_ram ((a + 0x80000000) % 2 ^ 64) };
}

pub full_machine-OnPath : OnPath full_machine 0 0 0 0x2000 0x3000 0x4000
unfolding physical_to_stivale next_table
full_machine-OnPath = record {
  recursive = refl;
  at_l4 = refl;
  at_l3 = refl;
  at_l2 = refl;
  l4_lt = omega arith;
  l3_lt = omega arith;
  l2_lt = omega arith;
}
