-- ===== src/Bootload/Tests.antt =====
-- A screen with the cursor near its end, an 'A' typed, and the gates of stubs at 0x100000.
use raccoon_exok.Common.{ℕ, ◌+◌, ◌*◌, [], ◌∷◌, ◌++◌, replicate, arith}
use raccoon_exok.Bootload.Console.{Console}
use raccoon_exok.Bootload.Screen.{putch}
use raccoon_exok.Bootload.Screen.Bounds.{OnScreen, Framed, putch-OnScreen}
use raccoon_exok.Bootload.Interrupts.{Tab}
use raccoon_exok.Bootload.Tables.{Gate, Segment, Tables}

abbrev console : Console
console = record {
  textmem = λ _. 0x0f20;
  attrib = 0x0f;
  csr_x = 79;
  csr_y = 24;
  arr = replicate 8 48 ++ (0 ∷ []);
  ports = [];
  reads = 0;
}

-- The last cell: the screen scrolls.
putch-OnScreen_example : OnScreen (putch 65 console) × Framed console (putch 65 console)
putch-OnScreen_example = putch-OnScreen 65 console (omega arith, omega arith)

-- Key 16, an 'a', and its release.
abbrev key_a : ℕ → Console → ℕ
key_a port s = 16

abbrev tab : Tab
tab = record { code = 0; nberr = 44 }

abbrev no_gate : Gate
no_gate = record {
  lowoffset = 0;
  codeselect = 0;
  reserved = 0;
  gatetype = 0;
  always0 = 0;
  dpl = 0;
  p = 1;
  highoffset = 0;
}

abbrev stub : ℕ → ℕ
stub n = 0x100000 + n * 16

abbrev segment : Segment
segment = record {
  llimit = 0;
  lbase = 0;
  mbase = 0;
  accessed = 0;
  rw = 0;
  dc = 0;
  executable = 0;
  descriptor_type = 0;
  dpl = 0;
  present = 0;
  hlimit = 0;
  reserved = 0;
  long_mode = 0;
  db = 0;
  granularity = 0;
  hbase = 0;
}

abbrev tables : Tables
tables = record {
  gdt = λ _. segment;
  gdt_64 = λ _. record { entry = segment; mbase2 = 0; hbase = 0; reserved = 0 };
  gp_limit = 0;
  gp_64_limit = 0;
}
