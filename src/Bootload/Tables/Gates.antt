-- ===== src/Bootload/Tables/Gates.antt =====
-- The gates that arch/x86_64/bootload/idt.c installs.
use raccoon_exok.Common.{
  ℕ, zero, suc, ◌+◌, ◌*◌, ◌/◌, ◌%◌, ◌^◌, ◌≤◌, ◌<◌, ◌≡◌, refl, sym, ap, subst, ◌∙◌, Bool, true, ◌⊎◌,
  inl, inr, Bool-cases, ◌==◌, if◌then◌else◌, bit_and, arith,
}
use raccoon_exok.Common.Word.{u8}
use raccoon_exok.Common.Bits.Fields.{bit_and_mask}
use raccoon_exok.Bootload.Tables.{Gate, idt_set_gate, blank_gates, idt_format, set_gates, idt_init}

-- Where a gate leads.
abbrev pub handler_of : Gate → ℕ
handler_of g = g.lowoffset + g.highoffset * 2 ^ 16

module _ (o c_s g_t dpl p : ℕ) (idt : ℕ → Gate) where
  set-elsewhere :
      (num n : ℕ) → num < 256 → (num ≡ n → ⊥) → idt_set_gate num o c_s g_t dpl p idt n ≡ idt n
  unfolding idt_set_gate
  set-elsewhere num n small apart = ground arith

-- `n` has a gate for `stub n` with the type `g_t`.
abbrev pub Installed : (ℕ → ℕ) → ℕ → ℕ → Gate → Type 0
Installed stub g_t n g =
    (handler_of g ≡ stub n % 2 ^ 32)
    × (g.gatetype ≡ g_t % 16)
    × (g.p ≡ 1)
    × (g.dpl ≡ 0)
    × (g.codeselect ≡ 8)

gate : (o g_t : ℕ) → Gate
gate o g_t = record {
  lowoffset = bit_and o 0xffff;
  codeselect = 8;
  reserved = 0;
  gatetype = g_t % 16;
  always0 = 0;
  dpl = 0;
  p = 1;
  highoffset = bit_and (o / 2 ^ 16) 0xffff;
}

gate-Installed : (stub : ℕ → ℕ) (g_t n : ℕ) → Installed stub g_t n (gate (stub n) g_t)
unfolding gate
gate-Installed stub g_t n = (
  omega (arith, bit_and_mask 16 (stub n), bit_and_mask 16 (stub n / 2 ^ 16)),
  refl,
  refl,
  refl,
  refl,
)

set-here : (o g_t n : ℕ) (idt : ℕ → Gate) → n < 256 → idt_set_gate n o 8 g_t 0 1 idt n ≡ gate o g_t
unfolding idt_set_gate gate
set-here o g_t n idt small =
    let here : (u8 n == n) ≡ true = ground arith in
    ap (λ (b : Bool). if b then gate o g_t else idt n) here

set_gates-elsewhere :
    (stub : ℕ → ℕ) (g_t rounds i : ℕ) (idt : ℕ → Gate) (n : ℕ)
    → i + rounds ≤ 256
    → (n < i) ⊎ (i + rounds ≤ n)
    → set_gates stub g_t rounds i idt n ≡ idt n
unfolding set_gates
set_gates-elsewhere stub g_t zero i idt n small out = refl
set_gates-elsewhere stub g_t (suc rounds) i idt n small out =
    set_gates-elsewhere stub g_t rounds (i + 1) (idt_set_gate i (stub i) 8 g_t 0 1 idt) n
      (omega arith) (omega arith)
    ∙ set-elsewhere (stub i) 8 g_t 0 1 idt i n (omega arith) (λ e. omega (arith, e))

set_gates-gate :
    (stub : ℕ → ℕ) (g_t rounds i : ℕ) (idt : ℕ → Gate) (n : ℕ)
    → i + rounds ≤ 256
    → i ≤ n
    → n < i + rounds
    → set_gates stub g_t rounds i idt n ≡ gate (stub n) g_t
unfolding set_gates
set_gates-gate stub g_t zero i idt n small low high = absurd (omega arith)
set_gates-gate stub g_t (suc rounds) i idt n small low high = elim (Bool-cases (i == n)) [
  | inl here ↦
      set_gates-elsewhere stub g_t rounds (i + 1) (idt_set_gate i (stub i) 8 g_t 0 1 idt) n
        (omega arith) (inl (ground arith))
      ∙ ap (λ (k : ℕ). idt_set_gate k (stub k) 8 g_t 0 1 idt n) {x = i} {y = n} (ground arith)
      ∙ set-here (stub n) g_t n idt (omega arith)
  | inr on ↦
      set_gates-gate stub g_t rounds (i + 1) (idt_set_gate i (stub i) 8 g_t 0 1 idt) n (omega arith)
        (ground arith) (omega arith)
]

abbrev no_gate : Gate
no_gate = record {
  lowoffset = 0;
  codeselect = 0;
  reserved = 0;
  gatetype = 0;
  always0 = 0;
  dpl = 0;
  p = 0;
  highoffset = 0;
}

set_blank :
    (i n : ℕ) (idt : ℕ → Gate)
    → i < 256
    → (i ≤ n) ⊎ ((idt n).p ≡ 0)
    → (i + 1 ≤ n) ⊎ ((idt_set_gate i 0 0 0 0 0 idt n).p ≡ 0)
unfolding idt_set_gate
set_blank i n idt small (inl low) = elim (Bool-cases (i == n)) [
  | inl here ↦ inr (
      ap (λ (b : Bool). (if b then no_gate else idt n).p) {x = u8 i == n} {y = true} (ground arith))
  | inr on ↦ inl (ground arith)
]
set_blank i n idt small (inr e) = inr (ground arith)

blank_gates-blank :
    (rounds i : ℕ) (idt : ℕ → Gate) (n : ℕ)
    → i + rounds ≤ 256
    → (i ≤ n) ⊎ ((idt n).p ≡ 0)
    → n < i + rounds
    → (blank_gates rounds i idt n).p ≡ 0
unfolding blank_gates
blank_gates-blank zero i idt n small (inl low) high = absurd (omega arith)
blank_gates-blank zero i idt n small (inr e) high = e
blank_gates-blank (suc rounds) i idt n small which high =
    blank_gates-blank rounds (i + 1) (idt_set_gate i 0 0 0 0 0 idt) n (omega arith)
      (set_blank i n idt (omega arith) which) (omega arith)

-- `idt_init`, whatever the table was before: the exceptions 0 to 19 have a trap gate and the device
-- interrupts 32 to 47 an interrupt gate, each for the routine of its number with a 32-bit address and
-- for the kernel only, and the other of the 256 gates are not present.
pub idt_init-Installed :
    (stub : ℕ → ℕ) (idt : ℕ → Gate)
    → ((n : ℕ) → n < 20 → Installed stub 15 n (idt_init stub idt n))
      × ((n : ℕ) → 32 ≤ n → n < 48 → Installed stub 14 n (idt_init stub idt n))
      × ((n : ℕ) → n < 256 → ((20 ≤ n) × (n < 32)) ⊎ (48 ≤ n) → (idt_init stub idt n).p ≡ 0)
unfolding idt_init idt_format
idt_init-Installed stub idt =
    let blank = blank_gates 256 0 idt in
    let low = set_gates stub 15 20 0 blank in
    (
      λ n h.
          subst (Installed stub 15 n)
            (sym (
              set_gates-elsewhere stub 14 16 32 low n (omega arith) (inl (omega arith))
              ∙ set_gates-gate stub 15 20 0 blank n (omega arith) (omega arith) (omega arith)))
            (gate-Installed stub 15 n),
      λ n h g.
          subst (Installed stub 14 n)
            (sym (set_gates-gate stub 14 16 32 low n (omega arith) h (omega arith)))
            (gate-Installed stub 14 n),
      λ n h out.
          ap (λ (g : Gate). g.p)
            (set_gates-elsewhere stub 14 16 32 low n (omega arith) (omega arith)
              ∙ set_gates-elsewhere stub 15 20 0 blank n (omega arith) (inr (omega arith)))
          ∙ blank_gates-blank 256 0 idt n (omega arith) (inl (omega arith)) (omega arith),
    )
