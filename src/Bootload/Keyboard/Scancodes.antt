-- ===== src/Bootload/Keyboard/Scancodes.antt =====
-- What the scancodes do in `keyboard_handling` of arch/x86_64/bootload/scrn.c.
use raccoon_exok.Common.{
  ℕ, ◌+◌, ◌≤◌, ◌<◌, ◌≡◌, refl, ap, ◌∙◌, ◌==◌, Bool, true, false, Bool-cases, inl, inr,
  if◌then◌else◌, none, some, get_elem?-eq-get_or, get_elem?-outside, arith, ◌-◌, ◌≢◌, sym, subst,
  get_or,
}
use raccoon_exok.Common.Run.{Run, ok, fault}
use raccoon_exok.Common.Word.{u8}
use raccoon_exok.Bootload.Console.{Console, bytes}
use raccoon_exok.Bootload.Screen.{putch, suppr, supprl}
use raccoon_exok.Bootload.Screen.Bounds.{OnScreen, Framed, putch-OnScreen}
use raccoon_exok.Bootload.Screen.Erase.{supprl-erases, suppr-Moved}
use raccoon_exok.Bootload.Format.{put_screen}
use raccoon_exok.Bootload.Format.Text.{puts-OnScreen}
use raccoon_exok.Bootload.Keyboard.{keymap, ignored, put_key, handle_key, keyboard_handling}

-- The run ends with the cursor on the screen, and no cell outside of the screen was written.
abbrev pub Ends : Console → Run Console → Type 0
Ends s r = (t : Console) × (r ≡ ok t) × OnScreen t × Framed s t

suppr_first : (s : Console) → s.csr_x ≡ 0 → suppr s ≡ s
unfolding suppr
suppr_first s e = ground arith

suppr-Ends : (s : Console) → OnScreen s → Ends s (ok (suppr s))
suppr-Ends s (hx, hy) = elim (Bool-cases (s.csr_x == 0)) [
  | inl first ↦ (s, ap ok (suppr_first s (ground arith)), (hx, hy), λ i h. refl)
  | inr next ↦
      let m = suppr-Moved s (s.csr_x - 1) (ground arith) (ground arith) hy in
      (
        suppr s,
        refl,
        (omega (arith, m.column), omega (arith, m.row)),
        λ i h. m.cells i ∙ ground arith,
      )
]

supprl-Ends : (s : Console) → OnScreen s → Ends s (supprl 80 s)
supprl-Ends s (hx, hy) =
    let (t, ends, column, row, color, inside, outside) =
      supprl-erases s.csr_x 80 s refl hx (hx, hy) in
    (t, ends, (omega (arith, column), omega (arith, row)), λ i h. outside i (inr (omega arith)))

put-Ends : (c : ℕ) (s : Console) → OnScreen s → Ends s (put_screen c s)
put-Ends c s on = let (on', out) = putch-OnScreen (u8 c) s on in (putch (u8 c) s, refl, on', out)

put_key-Ends :
    (scancode : ℕ) (s : Console) → scancode < 89 → OnScreen s → Ends s (put_key scancode s)
unfolding put_key
put_key-Ends scancode s small on =
    let key = get_elem?-eq-get_or keymap scancode 0 small in
    subst (λ o. Ends s (elim o [ none ↦ fault | some c ↦ put_screen c s ])) (sym key)
      (put-Ends (get_or keymap scancode 0) s on)

module _ (s : Console) where
  either :
      (b : Bool) {x y : Run Console}
      → Ends s x
      → (b ≡ false → Ends s y)
      → Ends s (if b then x else y)
  either true e f = e
  either false e f = f refl

  skip : (b : Bool) (x y : Run Console) → b ≡ false → (if b then x else y) ≡ y
  skip b x y h = ap (λ b. if b then x else y) h

  handle_key-Ends :
      (scancode : ℕ)
      → OnScreen s
      → (ignored scancode ≡ false → scancode ≢ 0x8e → scancode < 89)
      → Ends s (handle_key scancode s)
  unfolding handle_key
  handle_key-Ends scancode on known = either (scancode == 1) (supprl-Ends s on) λ h1.
      either (scancode == 0x1c) (put-Ends 10 s on) λ h2.
        either (scancode == 0x8e) (suppr-Ends s on) λ h3.
          either (ignored scancode) (s, refl, on, λ i h. refl)
            λ h4.
              either (scancode == 29) (puts-OnScreen (bytes "CTRL") s on)
                λ h5. put_key-Ends scancode s (known h4 (ground arith)) on

  -- A scancode of 89 or more that has no case of its own is looked up behind the end of `keymap`.
  handle_key-outside :
      (scancode : ℕ)
      → 89 ≤ scancode
      → scancode ≢ 0x8e
      → ignored scancode ≡ false
      → handle_key scancode s ≡ fault
  unfolding handle_key put_key
  handle_key-outside scancode large other not_ignored =
      skip (scancode == 1) _ _ (ground arith)
      ∙ skip (scancode == 0x1c) _ _ (ground arith)
      ∙ skip (scancode == 0x8e) _ _ (ground arith)
      ∙ skip (ignored scancode) _ _ not_ignored
      ∙ skip (scancode == 29) _ _ (ground arith)
      ∙ ap (λ o. elim o [ none ↦ fault | some c ↦ put_screen c s ])
          (get_elem?-outside keymap scancode large)

module _ (inb : ℕ → Console → ℕ) (s : Console) where
  -- With the cursor on the screen, `keyboard_handling` of a scancode that is below 89 or has a case of
  -- its own ends, the cursor stays on the screen, and no cell outside of the screen is written; for
  -- any other scancode it reads behind the end of `keymap`.
  pub keyboard_handling-Ends :
      OnScreen s
      → ((ignored (inb 0x60 s) ≡ false → inb 0x60 s ≢ 0x8e → inb 0x60 s < 89)
          → Ends s (keyboard_handling inb s))
        × (89 ≤ inb 0x60 s
            → inb 0x60 s ≢ 0x8e
            → ignored (inb 0x60 s) ≡ false
            → keyboard_handling inb s ≡ fault)
  unfolding keyboard_handling
  keyboard_handling-Ends on = (
    handle_key-Ends (record s { reads = s.reads + 1 }) (inb 0x60 s) on,
    handle_key-outside (record s { reads = s.reads + 1 }) (inb 0x60 s),
  )
