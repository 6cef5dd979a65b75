-- ===== src/Bootload/Screen.antt =====
-- The screen of arch/x86_64/bootload/scrn.c: 25 rows of 80 cells. `csr_x` and `csr_y` are `int`: a
-- negative column would stand here as its 32-bit pattern, and so does the index of a cell before the screen, far
-- behind the 2000 cells.
pub mod Scroll
pub mod Bounds
pub mod Erase
use raccoon_exok.Common.{
  ℕ, zero, suc, ◌+◌, ◌-◌, ◌*◌, ◌/◌, ◌^◌, bit_and, bit_or, Bool, leb, ltb, ◌&&◌, ◌==◌, if◌then◌else◌,
  write,
}
use raccoon_exok.Common.Run.{Run, ok, fault, out_of_fuel, ◌>>=◌}
use raccoon_exok.Common.Word.{u8, u16, u32, ◌<<◌, ◌>>◌}
use raccoon_exok.Bootload.Console.{Console, outb}

unfoldable pub memsetw : (dest val count : ℕ) → (ℕ → ℕ) → ℕ → ℕ
memsetw dest val zero mem = mem
memsetw dest val (suc count) mem = memsetw (dest + 1) val count (write mem dest val)

-- `memcpy` of an even number of bytes, cell by cell upwards.
unfoldable pub copy_cells : (dest src count : ℕ) → (ℕ → ℕ) → ℕ → ℕ
copy_cells dest src zero mem = mem
copy_cells dest src (suc count) mem =
    copy_cells (dest + 1) (src + 1) count (write mem dest (mem src))

abbrev pub blank : Console → ℕ
blank s = u16 (bit_or 0x20 (s.attrib << 8))

-- `x >= n` of an `int`, whose negative values are the patterns from `2 ^ 31` on.
abbrev pub signed_ge : (x n : ℕ) → Bool
signed_ge x n = leb n x && ltb x (2 ^ 31)

-- `temp` is unsigned, so that `25 - temp` wraps below 0.
unfoldable pub scroll : Console → Console
scroll s =
    let temp = u32 (s.csr_y - 25 + 1) in
    let rows = u32 (25 + 2 ^ 32 - temp) in
    let moved = copy_cells 0 (temp * 80) (u32 (rows * 160) / 2) s.textmem in
    if signed_ge s.csr_y 25
    then record s { textmem = memsetw (u32 (rows * 80)) (blank s) 80 moved; csr_y = 24 }
    else s

unfoldable pub move_csr : Console → Console
move_csr s =
    let temp = u32 (s.csr_y * 80 + s.csr_x) in
    outb 0x3d5 temp (outb 0x3d4 15 (outb 0x3d5 (temp >> 8) (outb 0x3d4 14 s)))

-- The loop of `cls` over the rows from `i` on, with `rounds` left.
unfoldable pub clear_rows : (rounds i blank : ℕ) → (ℕ → ℕ) → ℕ → ℕ
clear_rows zero i blank mem = mem
clear_rows (suc rounds) i blank mem =
    clear_rows rounds (i + 1) blank (memsetw (i * 80) blank 80 mem)

unfoldable pub cls : Console → Console
cls s = move_csr (record s { textmem = clear_rows 25 0 (blank s) s.textmem; csr_x = 0; csr_y = 0 })

-- `x--` of an `int`: below 0 it is the 32-bit pattern of the negative number.
abbrev pub decrement : ℕ → ℕ
decrement x = u32 (x + (2 ^ 32 - 1))

-- The part of `putch` for the character itself: backspace, tab, carriage return, newline and the
-- printable ones.
unfoldable pub place : (c : ℕ) → Console → Console
place c s =
    if c == 0x08
    then (if s.csr_x == 0 then s else record s { csr_x = decrement s.csr_x })
    else if c == 0x09
    then record s { csr_x = bit_and (s.csr_x + 8) 0xfffffff8 }
    else if c == 13
    then record s { csr_x = 0 }
    else if c == 10
    then record s { csr_x = 0; csr_y = u32 (s.csr_y + 1) }
    else if leb 32 c
    then record s {
      textmem = write s.textmem (u32 (s.csr_y * 80 + s.csr_x)) (u16 (bit_or c (s.attrib << 8)));
      csr_x = u32 (s.csr_x + 1);
    }
    else s

-- At the right edge, a new line.
unfoldable pub wrap_line : Console → Console
wrap_line s = if signed_ge s.csr_x 80 then record s { csr_x = 0; csr_y = u32 (s.csr_y + 1) } else s

unfoldable pub putch : (c : ℕ) → Console → Console
putch c s = move_csr (scroll (wrap_line (place c s)))

unfoldable pub settextcolor : (forecolor backcolor : ℕ) → Console → Console
settextcolor forecolor backcolor s = record s {
  attrib = bit_or (backcolor << 4) (bit_and forecolor 0x0f);
}

-- Deletes the character before the cursor.
unfoldable pub suppr : Console → Console
suppr s =
    let blanked = putch 32 (record s { csr_x = decrement s.csr_x }) in
    if s.csr_x == 0 then s else move_csr (record blanked { csr_x = decrement blanked.csr_x })

unfoldable pub supprl : (fuel : ℕ) → Console → Run Console
supprl zero s = out_of_fuel
supprl (suc fuel) s = let rest = supprl fuel (suppr s) in if s.csr_x == 0 then ok s else rest

-- `textmemptr` is where the cells of `textmem` begin.
unfoldable pub init_video : Console → Console
init_video s = cls s
