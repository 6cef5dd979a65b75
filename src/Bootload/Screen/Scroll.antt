-- ===== src/Bootload/Screen/Scroll.antt =====
-- What `scroll` of arch/x86_64/bootload/scrn.c does with the cells.
use raccoon_exok.Common.{
  ℕ, zero, suc, ◌+◌, ◌*◌, ◌≤◌, ◌<◌, ◌≡◌, refl, ◌==◌, write, arith, Bool-cases, ◌⊎◌, inl, inr,
}
use raccoon_exok.Bootload.Console.{Console}
use raccoon_exok.Bootload.Screen.{memsetw, copy_cells, scroll, blank}

pub memsetw-outside :
    (dest val count : ℕ) (mem : ℕ → ℕ) (i : ℕ)
    → (i < dest) ⊎ (dest + count ≤ i)
    → memsetw dest val count mem i ≡ mem i
unfolding memsetw
memsetw-outside dest val zero mem i out = refl
memsetw-outside dest val (suc count) mem i out =
    ground (arith, memsetw-outside (dest + 1) val count (write mem dest val) i (omega arith))

pub memsetw-inside :
    (dest val count : ℕ) (mem : ℕ → ℕ) (i : ℕ)
    → dest ≤ i
    → i < dest + count
    → memsetw dest val count mem i ≡ val
unfolding memsetw
memsetw-inside dest val zero mem i low high = absurd (omega arith)
memsetw-inside dest val (suc count) mem i low high = elim (Bool-cases (dest == i)) [
  | inl e ↦
      ground
        (arith, memsetw-outside (dest + 1) val count (write mem dest val) i (inl (ground arith)))
  | inr e ↦ memsetw-inside (dest + 1) val count (write mem dest val) i (ground arith) (omega arith)
]

pub copy_cells-outside :
    (dest src count : ℕ) (mem : ℕ → ℕ) (i : ℕ)
    → (i < dest) ⊎ (dest + count ≤ i)
    → copy_cells dest src count mem i ≡ mem i
unfolding copy_cells
copy_cells-outside dest src zero mem i out = refl
copy_cells-outside dest src (suc count) mem i out = ground (
  arith,
  copy_cells-outside (dest + 1) (src + 1) count (write mem dest (mem src)) i (omega arith),
)

-- Copying downwards in memory, so that no cell is overwritten before it is read.
pub copy_cells-inside :
    (dest src count : ℕ) (mem : ℕ → ℕ) (i : ℕ)
    → dest < src
    → i < count
    → copy_cells dest src count mem (dest + i) ≡ mem (src + i)
unfolding copy_cells
copy_cells-inside dest src zero mem i down small = absurd (omega arith)
copy_cells-inside dest src (suc count) mem zero down small = ground (
  arith,
  copy_cells-outside (dest + 1) (src + 1) count (write mem dest (mem src)) dest (inl (omega arith)),
)
copy_cells-inside dest src (suc count) mem (suc i) down small =
    let next =
      copy_cells-inside (dest + 1) (src + 1) count (write mem dest (mem src)) i (omega arith)
        (omega arith) in
    ground (arith, next)

-- `scroll` with the cursor on the row behind the last: every row has the cells of the row below it,
-- the last row is blank in the current color, memory outside of the 2000 cells is unchanged, and
-- the cursor is on the last row.
pub scroll-moves :
    (s : Console)
    → s.csr_y ≡ 25
    → ((row column : ℕ)
        → row < 24
        → column < 80
        → (scroll s).textmem (row * 80 + column) ≡ s.textmem ((row + 1) * 80 + column))
      × ((column : ℕ) → column < 80 → (scroll s).textmem (24 * 80 + column) ≡ blank s)
      × ((i : ℕ) → 2000 ≤ i → (scroll s).textmem i ≡ s.textmem i)
      × ((scroll s).csr_y ≡ 24)
unfolding scroll
scroll-moves s below = (
  λ row column hr hc. ground (
    arith,
    memsetw-outside 1920 (blank s) 80 (copy_cells 0 80 1920 s.textmem) (row * 80 + column)
        (inl (omega arith)),
    copy_cells-inside 0 80 1920 s.textmem (row * 80 + column) (omega arith) (omega arith),
  ),
  λ column hc. ground (
    arith,
    memsetw-inside 1920 (blank s) 80 (copy_cells 0 80 1920 s.textmem) (24 * 80 + column)
        (omega arith) (omega arith),
  ),
  λ i h. ground (
    arith,
    memsetw-outside 1920 (blank s) 80 (copy_cells 0 80 1920 s.textmem) i (inr (omega arith)),
    copy_cells-outside 0 80 1920 s.textmem i (inr (omega arith)),
  ),
  ground arith,
)
