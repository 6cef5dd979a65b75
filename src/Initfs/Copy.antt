-- ===== src/Initfs/Copy.antt =====
-- `my_strncpy` of kernel/src/initfs.c copies a text, cut to the room there is.
use raccoon_exok.Common.{
  ℕ, zero, suc, ◌+◌, ◌≤◌, ◌<◌, ◌≡◌, ◌⊎◌, inl, inr, refl, ap, subst, ◌∙◌, some, List, [], ◌∷◌,
  length, ◌==◌, Bool-cases, arith,
}
use raccoon_exok.Common.Run.{ok}
use raccoon_exok.Memory.{Memory, load, put, store, StrAt}
use raccoon_exok.Initfs.{my_strncpy}

abbrev pub take : ℕ → List ℕ → List ℕ
take zero xs = []
take (suc n) [] = []
take (suc n) (x ∷ xs) = x ∷ take n xs

pub length-take : (n : ℕ) (xs : List ℕ) → length (take n xs) ≤ n
length-take zero xs = omega arith
length-take (suc n) [] = omega arith
length-take (suc n) (x ∷ xs) = omega (arith, length-take n xs)

pub take_all : (n : ℕ) (xs : List ℕ) → length xs ≤ n → take n xs ≡ xs
take_all zero [] h = refl
take_all zero (x ∷ xs) h = absurd (omega arith)
take_all (suc n) [] h = refl
take_all (suc n) (x ∷ xs) h = ap (λ ys. x ∷ ys) (take_all n xs (omega arith))

-- A text stands in every memory that agrees on its bytes and its final 0.
pub StrAt-agrees :
    (mem mem' : Memory) (p : ℕ) (s : List ℕ)
    → ((q : ℕ) → p ≤ q → q ≤ p + length s → mem' q ≡ mem q)
    → StrAt mem p s
    → StrAt mem' p s
StrAt-agrees mem mem' p [] same at = same p (omega arith) (omega arith) ∙ at
StrAt-agrees mem mem' p (c ∷ s) same (here, nz, lt, rest) = (
  same p (omega arith) (omega arith) ∙ here,
  nz,
  lt,
  StrAt-agrees mem mem' (p + 1) s (λ q h g. same q (omega arith) (omega arith)) rest,
)

abbrev pub Mapped : Memory → ℕ → ℕ → Type 0
Mapped mem lo hi = (p : ℕ) → lo ≤ p → p ≤ hi → (b : ℕ) × (mem p ≡ some b)

-- The bytes `lo` to `hi` are not among `from` to `to`.
abbrev pub Apart : ℕ → ℕ → ℕ → ℕ → Type 0
Apart lo hi from to = (hi < from) ⊎ (to < lo)

abbrev pub KeepsMapped : Memory → Memory → Type 0
KeepsMapped mem mem' = (p b : ℕ) → mem p ≡ some b → (b' : ℕ) × (mem' p ≡ some b')

KeepsMapped-store : (mem : Memory) (q v : ℕ) → KeepsMapped mem (store mem q v)
KeepsMapped-store mem q v p b found = elim (Bool-cases (q == p)) [
  | inl here ↦ (v, ground arith)
  | inr there ↦ (b, ground arith)
]

-- What a copy leaves: the text `t` at `at`, and all bytes but those from `at` to `last` as before; what was
-- mapped is mapped.
abbrev pub Copied : Memory → Memory → ℕ → ℕ → List ℕ → Type 0
Copied mem mem' at last t =
    StrAt mem' at t × ((p : ℕ) → Apart p p at last → mem' p ≡ mem p) × KeepsMapped mem mem'

put-mapped : (mem : Memory) (p b old : ℕ) → mem p ≡ some old → put mem p b ≡ ok (store mem p b)
unfolding put
put-mapped mem p b old there = ground (arith, there)

-- Of a text at `src`, `my_strncpy` copies at most `rounds` bytes and ends them by a 0.
pub my_strncpy-Copied :
    (dest src rounds i : ℕ) (mem : Memory) (s : List ℕ)
    → StrAt mem (src + i) s
    → Mapped mem (dest + i) (dest + i + rounds)
    → Apart (src + i) (src + i + length s) (dest + i) (dest + i + rounds)
    → (mem' : Memory) × (my_strncpy dest src rounds i mem ≡ ok mem')
      × Copied mem mem' (dest + i) (dest + i + rounds) (take rounds s)
unfolding my_strncpy load
my_strncpy-Copied dest src zero i mem s at mapped apart =
    let (old, there) = mapped (dest + i) (omega arith) (omega arith) in
    (
      store mem (dest + i) 0,
      put-mapped mem (dest + i) 0 old there,
      (
        ground arith,
        λ p out. elim out [ inl l ↦ ground arith | inr r ↦ ground arith ],
        KeepsMapped-store mem (dest + i) 0,
      ),
    )
my_strncpy-Copied dest src (suc rounds) i mem [] at mapped apart =
    let (old, there) = mapped (dest + i) (omega arith) (omega arith) in
    (
      store mem (dest + i) 0,
      ground (arith, put-mapped mem (dest + i) 0 old there),
      (
        ground arith,
        λ p out. elim out [ inl l ↦ ground arith | inr r ↦ ground arith ],
        KeepsMapped-store mem (dest + i) 0,
      ),
    )
my_strncpy-Copied dest src (suc rounds) i mem (c ∷ s) (here, nz, lt, rest) mapped apart =
    let (old, there) = mapped (dest + i) (omega arith) (omega arith) in
    let mem1 = store mem (dest + i) c in
    let (mem', runs, (copied, same, keeps)) =
      my_strncpy-Copied dest src rounds (i + 1) mem1 s
        (subst (λ q. StrAt mem1 q s) (omega arith)
          (StrAt-agrees mem mem1 (src + i + 1) s
            (λ q h g. elim apart [ inl l ↦ ground arith | inr r ↦ ground arith ]) rest))
        (λ p h g.
          let (b, found) = mapped p (omega arith) (omega arith) in (b, ground (arith, found)))
        (elim apart [ inl l ↦ inl (omega arith) | inr r ↦ inr (omega arith) ]) in
    (
      mem',
      ground (arith, put-mapped mem (dest + i) c old there, runs),
      (
        (
          same (dest + i) (inl (omega arith)) ∙ ground arith,
          nz,
          lt,
          subst (λ q. StrAt mem' q (take rounds s)) (omega arith) copied,
        ),
        λ p out. elim out [
          | inl l ↦ same p (inl (omega arith)) ∙ ground arith
          | inr r ↦ same p (inr (omega arith)) ∙ ground arith
        ],
        λ p b found.
            let (b1, found1) = KeepsMapped-store mem (dest + i) c p b found in keeps p b1 found1,
      ),
    )
