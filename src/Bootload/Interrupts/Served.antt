-- ===== src/Bootload/Interrupts/Served.antt =====
-- What the interrupts of arch/x86_64/bootload put on the screen.
use raccoon_exok.Common.{
  ℕ, ◌-◌, ◌≤◌, ◌<◌, ◌≡◌, refl, ap, ◌∙◌, [], ◌∷◌, ◌++◌, none, some, get_or, get_elem?-eq-get_or,
  get_elem?-outside, arith,
}
use raccoon_exok.Common.Run.{ok, fault, ◌>>=◌}
use raccoon_exok.Numbers.Read.{decimal_from}
use raccoon_exok.Bootload.Console.{Console, outb, bytes}
use raccoon_exok.Bootload.Screen.Bounds.{OnScreen, Framed}
use raccoon_exok.Bootload.Output.{puts}
use raccoon_exok.Bootload.Output.Decimal.{decimal}
use raccoon_exok.Bootload.Format.{word, put_screen, printf}
use raccoon_exok.Bootload.Format.Text.{puts-OnScreen, printf-number}
use raccoon_exok.Bootload.Interrupts.{Tab, jumptable, jump, irqe, basic_irq_handling}

module _ (inb : ℕ → Console → ℕ) (tab : Tab) (s : Console) where
  irqe-printf :
      (irq : ℕ)
      → 1 < irq
      → irq < 16
      → irqe inb irq s ≡ printf (bytes "IRQ %u triggered\n") (word irq ∷ []) s
  unfolding irqe
  irqe-printf irq low high = ground arith

  -- An interrupt from 34 to 47, with the cursor on the screen: the screen gets the text "IRQ n
  -- triggered" and a new line, where the decimal text for n has the value of the interrupt number
  -- less 32, the cursor stays on the screen, and the last output is the end of interrupt to the first
  -- controller, port 0x20.
  pub basic_irq_handling-prints :
      34 ≤ tab.nberr
      → tab.nberr < 48
      → OnScreen s
      → (k : ℕ) × (u : Console) × (puts put_screen
            (bytes "IRQ " ++ (decimal k (tab.nberr - 32) ++ bytes " triggered\n"))
            s
          ≡ ok u)
        × (basic_irq_handling inb tab s ≡ ok (outb 0x20 0x20 u))
        × (decimal_from 0 (decimal k (tab.nberr - 32)) ≡ tab.nberr - 32)
        × OnScreen u
  unfolding basic_irq_handling
  basic_irq_handling-prints low high on =
      let n : ℕ = tab.nberr - 32 in
      let (k, prints, value, digits) =
        printf-number (bytes "IRQ ") (bytes " triggered\n") n s (refl, (refl, (refl, (refl, tt))))
          (refl, (refl, (refl, (refl, (refl, (refl, (refl, (refl, (refl, (refl, (refl, tt)))))))))))
          (omega arith) (omega arith) in
      let text = bytes "IRQ " ++ (decimal k n ++ bytes " triggered\n") in
      let (u, runs, on', out) = puts-OnScreen text s on in
      (
        k,
        u,
        runs,
        ap (λ (i : ℕ). irqe inb i s >>= λ s. ok (outb 0x20 0x20 s)) {y = n} (omega arith)
            ∙ ap (λ r. r >>= λ s. ok (outb 0x20 0x20 s))
                (irqe-printf n (omega arith) (omega arith) ∙ prints ∙ runs),
        value,
        on',
      )

-- An exception below 20 puts its text on the screen, without an error and with the cursor kept on
-- the screen; for another the jump goes behind the end of the table.
pub jump-text :
    (tab : Tab) (s : Console)
    → OnScreen s
    → (tab.nberr < 20 → (t : Console) × (jump tab s ≡ ok t) × OnScreen t × Framed s t)
      × (20 ≤ tab.nberr → jump tab s ≡ fault)
unfolding jump
jump-text tab s on = (
  λ small.
      let (t, runs, on', out) = puts-OnScreen (get_or jumptable tab.nberr []) s on in
      let there = get_elem?-eq-get_or jumptable tab.nberr [] small in
      (
        t,
        ap (λ o. elim o [ none ↦ fault | some text ↦ puts put_screen text s ]) there ∙ runs,
        on',
        out,
      ),
  λ large.
      ap (λ o. elim o [ none ↦ fault | some text ↦ puts put_screen text s ])
        (get_elem?-outside jumptable tab.nberr large),
)
