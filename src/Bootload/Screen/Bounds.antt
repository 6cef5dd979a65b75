-- ===== src/Bootload/Screen/Bounds.antt =====
-- The cursor of arch/x86_64/bootload/scrn.c stays on the screen, and so do the writes.
use raccoon_exok.Common.{
  ℕ, ◌+◌, ◌-◌, ◌*◌, ◌/◌, ◌%◌, ◌^◌, ◌≤◌, ◌<◌, ◌≡◌, ap, ◌∙◌, arith, bit_and, leb, false, Bool-cases,
  ◌⊎◌, inl, inr,
}
use raccoon_exok.Common.Bits.Fields.{bit_and_shifted, bit_and_mask}
use raccoon_exok.Bootload.Console.{Console}
use raccoon_exok.Bootload.Screen.{place, wrap_line, scroll, move_csr, putch}
use raccoon_exok.Bootload.Screen.Scroll.{scroll-moves}

abbrev pub OnScreen : Console → Type 0
OnScreen s = (s.csr_x < 80) × (s.csr_y < 25)

-- `t` differs from `s` in the 2000 cells of the screen only.
abbrev pub Framed : Console → Console → Type 0
Framed s t = (i : ℕ) → 2000 ≤ i → t.textmem i ≡ s.textmem i

bit_and-tab : (x : ℕ) → bit_and x 0xfffffff8 ≡ x / 2 ^ 3 % 2 ^ 29 * 2 ^ 3
bit_and-tab x =
    bit_and_shifted 3 x (2 ^ 29 - 1) ∙ ap (λ (t : ℕ). t * 2 ^ 3) (bit_and_mask 29 (x / 2 ^ 3))

place-bounds :
    (c : ℕ) (s : Console)
    → OnScreen s
    → ((place c s).csr_x < 2 ^ 31)
      × (((place c s).csr_y ≤ 24) ⊎ (((place c s).csr_y ≡ 25) × ((place c s).csr_x ≡ 0)))
unfolding place
place-bounds c s (hx, hy) = (ground (arith, bit_and-tab (s.csr_x + 8)), ground arith)

place-Framed : (c : ℕ) (s : Console) → OnScreen s → Framed s (place c s)
unfolding place
place-Framed c s (hx, hy) i h = ground arith

wrap_line-bounds :
    (s : Console)
    → s.csr_x < 2 ^ 31
    → (s.csr_y ≤ 24) ⊎ ((s.csr_y ≡ 25) × (s.csr_x ≡ 0))
    → ((wrap_line s).csr_x < 80) × ((wrap_line s).csr_y ≤ 25)
unfolding wrap_line
wrap_line-bounds s small h = ground arith

wrap_line-Framed : (s : Console) → Framed s (wrap_line s)
unfolding wrap_line
wrap_line-Framed s i h = ground arith

scroll_column : (s : Console) → s.csr_x < 80 → (scroll s).csr_x < 80
unfolding scroll
scroll_column s hx = ground arith

scroll_above :
    (s : Console)
    → s.csr_x < 80
    → leb 25 s.csr_y ≡ false
    → OnScreen (scroll s) × Framed s (scroll s)
unfolding scroll
scroll_above s hx free = ((ground arith, ground arith), λ i h. ground arith)

scroll-OnScreen :
    (s : Console) → s.csr_x < 80 → s.csr_y ≤ 25 → OnScreen (scroll s) × Framed s (scroll s)
scroll-OnScreen s hx hy = elim (Bool-cases (leb 25 s.csr_y)) [
  | inl full ↦
      let (up, last, out, row) = scroll-moves s (ground arith) in
      ((scroll_column s hx, omega arith), out)
  | inr free ↦ scroll_above s hx free
]

-- From a cursor on the screen, in a column from 0 to 79 and a row from 0 to 24, `putch` of any character keeps it there and writes to no cell
-- outside of the screen.
pub putch-OnScreen :
    (c : ℕ) (s : Console) → OnScreen s → OnScreen (putch c s) × Framed s (putch c s)
unfolding putch move_csr
putch-OnScreen c s on =
    let (small, row) = place-bounds c s on in
    let (hx, hy) = wrap_line-bounds (place c s) small row in
    let (on', out) = scroll-OnScreen (wrap_line (place c s)) hx hy in
    (on', λ i h. out i h ∙ wrap_line-Framed (place c s) i h ∙ place-Framed c s on i h)
