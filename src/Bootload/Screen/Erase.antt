-- ===== src/Bootload/Screen/Erase.antt =====
-- Printing and erasing within a row on the screen of arch/x86_64/bootload/scrn.c.
use raccoon_exok.Common.{
  ℕ, zero, suc, Bool, ◌+◌, ◌-◌, ◌*◌, ◌≤◌, ◌<◌, ◌≡◌, refl, sym, ap, ◌∙◌, ◌==◌, if◌then◌else◌, bit_or,
  write, arith, false, Bool-cases, ◌⊎◌, inl, inr,
}
use raccoon_exok.Common.Run.{ok}
use raccoon_exok.Common.Word.{u16, ◌<<◌}
use raccoon_exok.Bootload.Console.{Console}
use raccoon_exok.Bootload.Screen.{place, wrap_line, scroll, move_csr, putch, suppr, supprl, blank}
use raccoon_exok.Bootload.Screen.Bounds.{OnScreen}

abbrev pub cell : Console → ℕ → ℕ
cell s c = u16 (bit_or c (s.attrib << 8))

-- `t` is `s` with the cells `textmem` and the column `x`, up to the ports.
pub record Moved (s t : Console) (x : ℕ) (textmem : ℕ → ℕ) : Type 0 where
  pub column : t.csr_x ≡ x
  pub row : t.csr_y ≡ s.csr_y
  pub color : t.attrib ≡ s.attrib
  pub cells : (i : ℕ) → t.textmem i ≡ textmem i

place-printable :
    (c : ℕ) (s : Console)
    → 32 ≤ c
    → s.csr_x < 80
    → s.csr_y < 25
    → place c s ≡ record s {
      textmem = write s.textmem (s.csr_y * 80 + s.csr_x) (cell s c);
      csr_x = s.csr_x + 1;
    }
unfolding place
place-printable c s h hx hy = ground arith

wrap_line-kept : (s : Console) → s.csr_x < 80 → wrap_line s ≡ s
unfolding wrap_line
wrap_line-kept s h = ground arith

scroll-kept : (s : Console) → s.csr_y < 25 → scroll s ≡ s
unfolding scroll
scroll-kept s h = ground arith

-- A printable character before the last column goes to the cell of the cursor.
pub putch-printable :
    (c : ℕ) (s : Console)
    → 32 ≤ c
    → s.csr_x < 79
    → s.csr_y < 25
    → Moved s (putch c s) (s.csr_x + 1) (write s.textmem (s.csr_y * 80 + s.csr_x) (cell s c))
unfolding putch move_csr
putch-printable c s h hx hy =
    let t = record s {
      textmem = write s.textmem (s.csr_y * 80 + s.csr_x) (cell s c);
      csr_x = s.csr_x + 1;
    } in
    let same : putch c s ≡ move_csr t =
      ap (λ u. move_csr (scroll (wrap_line u))) (place-printable c s h (omega arith) hy)
      ∙ ap (λ u. move_csr (scroll u)) (wrap_line-kept t (omega arith))
      ∙ ap move_csr (scroll-kept t hy) in
    record {
      column = ap (λ u. u.csr_x) same;
      row = ap (λ u. u.csr_y) same;
      color = ap (λ u. u.attrib) same;
      cells = λ i. ap (λ u. u.textmem i) same;
    }

pub suppr-Moved :
    (s : Console) (x : ℕ)
    → s.csr_x ≡ suc x
    → suc x < 80
    → s.csr_y < 25
    → Moved s (suppr s) x (write s.textmem (s.csr_y * 80 + x) (cell s 32))
unfolding suppr move_csr
suppr-Moved s x e hx hy =
    let m = putch-printable 32 (record s { csr_x = s.csr_x - 1 }) (omega arith) (omega arith) hy in
    record {
      column = ground (arith, m.column);
      row = ground (arith, m.row);
      color = ground (arith, m.color);
      cells = λ i. ground (arith, m.cells i);
    }

-- From a cursor on the screen in column `x`, `supprl` ends with more than `x` rounds of fuel: the
-- cursor is at the start of its row, the cells before the old column are blank in the current
-- color, and all other cells are unchanged.
pub supprl-erases :
    (x fuel : ℕ) (s : Console)
    → s.csr_x ≡ x
    → x < fuel
    → OnScreen s
    → (t : Console) × (supprl fuel s ≡ ok t)
      × (t.csr_x ≡ 0)
      × (t.csr_y ≡ s.csr_y)
      × (t.attrib ≡ s.attrib)
      × ((j : ℕ) → j < x → t.textmem (s.csr_y * 80 + j) ≡ blank s)
      × ((i : ℕ) → (i < s.csr_y * 80) ⊎ (s.csr_y * 80 + x ≤ i) → t.textmem i ≡ s.textmem i)
unfolding supprl
supprl-erases x zero s e enough on = absurd (omega arith)
supprl-erases zero (suc fuel) s e enough on =
    (s, simp e refl, e, refl, refl, λ j h. absurd (omega arith), λ i h. refl)
supprl-erases (suc x) (suc fuel) s e enough (hx, hy) =
    let m = suppr-Moved s x e (omega arith) hy in
    let more : (s.csr_x == 0) ≡ false = ground arith in
    let (t, ends, column, row, color, inside, outside) =
      supprl-erases x fuel (suppr s) m.column (omega arith)
        (omega (arith, m.column), omega (arith, m.row)) in
    (
      t,
      ap (λ (b : Bool). if b then ok s else supprl fuel (suppr s)) more ∙ ends,
      column,
      row ∙ m.row,
      color ∙ m.color,
      λ j h. elim (Bool-cases (j == x)) [
        | inl last ↦
            ap (λ (y : ℕ). t.textmem (y * 80 + j)) (sym m.row)
            ∙ outside ((suppr s).csr_y * 80 + j) (inr (ground arith))
            ∙ m.cells ((suppr s).csr_y * 80 + j)
            ∙ ground (arith, m.row)
        | inr before ↦
            ap (λ (y : ℕ). t.textmem (y * 80 + j)) (sym m.row)
            ∙ inside j (ground arith)
            ∙ ap (λ (a : ℕ). u16 (bit_or 32 (a << 8))) m.color
      ],
      λ i h. outside i (ground (arith, m.row)) ∙ m.cells i ∙ ground (arith, m.row),
    )
