-- ===== src/Bootload/Tables.antt =====
-- The descriptor tables of the loader: arch/x86_64/bootload/gdt.c and arch/x86_64/bootload/idt.c.
pub mod Limits
pub mod Gates
use raccoon_exok.Common.{ℕ, zero, suc, ◌+◌, ◌-◌, ◌*◌, ◌%◌, ◌/◌, ◌^◌, bit_and, write}
use raccoon_exok.Common.Word.{u8, u16, u32, ◌>>◌}

-- `struct gdt_entry`; `hbase` has 8 bits.
pub record Segment : Type 0 where
  pub llimit : ℕ
  pub lbase : ℕ
  pub mbase : ℕ
  pub accessed : ℕ
  pub rw : ℕ
  pub dc : ℕ
  pub executable : ℕ
  pub descriptor_type : ℕ
  pub dpl : ℕ
  pub present : ℕ
  pub hlimit : ℕ
  pub reserved : ℕ
  pub long_mode : ℕ
  pub db : ℕ
  pub granularity : ℕ
  pub hbase : ℕ

-- `struct gdt_entry_64`: with two more words of the base.
pub record Segment64 : Type 0 where
  pub entry : Segment
  pub mbase2 : ℕ
  pub hbase : ℕ
  pub reserved : ℕ

-- The arrays `gdt` and `gdt_64`, and the limits of the pointers to them.
pub record Tables : Type 0 where
  pub gdt : ℕ → Segment
  pub gdt_64 : ℕ → Segment64
  pub gp_limit : ℕ
  pub gp_64_limit : ℕ

module _ (num lowlimit highlimit lowbase middlebase : ℕ) where
  -- A field of the entry keeps the lower bits of its argument.
  unfoldable pub gdt_set_gate : (highbase a rw dc e s dpl p g db l : ℕ) → Tables → Tables
  gdt_set_gate highbase a rw dc e s dpl p g db l t = record t {
    gdt = write t.gdt num (record {
      llimit = u16 lowlimit;
      lbase = u16 lowbase;
      mbase = u8 middlebase;
      accessed = a % 2;
      rw = rw % 2;
      dc = dc % 2;
      executable = e % 2;
      descriptor_type = s % 2;
      dpl = dpl % 4;
      present = p % 2;
      hlimit = highlimit % 16;
      reserved = 0;
      long_mode = l % 2;
      db = db % 2;
      granularity = g % 2;
      hbase = u8 highbase;
    });
  }

  -- `highlimit` goes to the entry of the other table, `gdt`, and that of `gdt_64` keeps its own.
  unfoldable pub gdt64_set_gate :
      (middlebase2 highbase a rw dc e s dpl p g db l : ℕ) → Tables → Tables
  gdt64_set_gate middlebase2 highbase a rw dc e s dpl p g db l t = record t {
    gdt_64 = write t.gdt_64 num (record {
      entry = record (t.gdt_64 num).entry {
        llimit = u16 lowlimit;
        lbase = u16 lowbase;
        mbase = u8 middlebase;
        accessed = a % 2;
        rw = rw % 2;
        dc = dc % 2;
        executable = e % 2;
        descriptor_type = s % 2;
        dpl = dpl % 4;
        present = p % 2;
        reserved = 0;
        long_mode = l % 2;
        db = db % 2;
        granularity = g % 2;
      };
      mbase2 = u8 middlebase2;
      hbase = u32 highbase;
      reserved = 0;
    });
    gdt = write t.gdt num (record (t.gdt num) { hlimit = highlimit % 16 });
  }

-- Without the load instruction. An entry has 8 bytes.
unfoldable pub gdt_install : Tables → Tables
gdt_install t =
    let t = record t { gp_limit = 8 * 5 - 1 } in
    let t = gdt_set_gate 0 0 0 0 0 0 0 0 0 0 0 0 0 0 0 0 t in
    let t = gdt_set_gate 1 0xffff 0xf 0 0 0 0 1 0 1 1 0 1 1 1 0 t in
    let t = gdt_set_gate 2 0xffff 0xf 0 0 0 0 1 0 0 1 0 1 1 1 0 t in
    let t = gdt_set_gate 3 0xffff 0xf 0 0 0 0 1 0 1 1 3 1 1 1 0 t in
    gdt_set_gate 4 0xffff 0xf 0 0 0 0 1 0 0 1 3 1 1 1 0 t

-- An entry of 64 bits mode has 16 bytes.
unfoldable pub set_64_gdt : Tables → Tables
set_64_gdt t =
    let t = record t { gp_64_limit = 16 * 2 - 1 } in
    let t = gdt64_set_gate 0 0 0 0 0 0 0 0 0 0 0 0 0 0 0 0 0 t in
    let t = gdt64_set_gate 1 0xffff 0 0 0 0 0 0 1 0 1 1 0 1 1 0 1 t in
    gdt64_set_gate 2 0xffff 0 0 0 0 0 0 1 0 1 1 0 1 1 0 1 t

-- `struct idt_gate_descriptor`
pub record Gate : Type 0 where
  pub lowoffset : ℕ
  pub codeselect : ℕ
  pub reserved : ℕ
  pub gatetype : ℕ
  pub always0 : ℕ
  pub dpl : ℕ
  pub p : ℕ
  pub highoffset : ℕ

unfoldable pub idt_set_gate : (num o c_s g_t dpl p : ℕ) → (ℕ → Gate) → ℕ → Gate
idt_set_gate num o c_s g_t dpl p idt = write idt (u8 num) (record {
  lowoffset = bit_and o 0xffff;
  codeselect = u16 c_s;
  reserved = 0;
  gatetype = g_t % 16;
  always0 = 0;
  dpl = dpl % 4;
  p = p % 2;
  highoffset = bit_and (o >> 16) 0xffff;
})

-- The loop of `idt_format` from `i` on, with `rounds` left.
unfoldable pub blank_gates : (rounds i : ℕ) → (ℕ → Gate) → ℕ → Gate
blank_gates zero i idt = idt
blank_gates (suc rounds) i idt = blank_gates rounds (i + 1) (idt_set_gate i 0 0 0 0 0 idt)

unfoldable pub idt_format : (ℕ → Gate) → ℕ → Gate
idt_format = blank_gates 256 0

-- The calls of `idt_set_gate` for `rounds` numbers from `i` on; `stub` has the addresses of the
-- routines in assembly.
unfoldable pub set_gates : (stub : ℕ → ℕ) (g_t rounds i : ℕ) → (ℕ → Gate) → ℕ → Gate
set_gates stub g_t zero i idt = idt
set_gates stub g_t (suc rounds) i idt =
    set_gates stub g_t rounds (i + 1) (idt_set_gate i (stub i) 8 g_t 0 1 idt)

-- `isr0` to `isr19` and `irq32` to `irq47`, without the load instruction.
unfoldable pub idt_init : (stub : ℕ → ℕ) → (ℕ → Gate) → ℕ → Gate
idt_init stub idt = set_gates stub 14 16 32 (set_gates stub 15 20 0 (idt_format idt))
