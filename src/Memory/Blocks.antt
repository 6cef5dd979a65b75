-- ===== src/Memory/Blocks.antt =====
-- kernel/src/utils/gcc/memory.c: `memset` and `memcpy`, byte by byte.
use raccoon_exok.Common.{
  ℕ, zero, suc, ◌+◌, ◌-◌, ◌≤◌, ◌<◌, ◌≡◌, ◌⊎◌, inl, inr, refl, ap, ◌∙◌, some, Bool, ◌&&◌, leb, ltb,
  ◌==◌, if◌then◌else◌, Bool-cases, arith,
}
use raccoon_exok.Common.Run.{Run, ok, ◌>>=◌}
use raccoon_exok.Common.Word.{u8}
use raccoon_exok.Memory.{Memory, load, store, put}

-- `for (bb = b; len > 0; len--) *bb++ = c;`
unfoldable pub memset : (b c len : ℕ) → Memory → Run Memory
unfolding put
memset b c zero mem = ok mem
memset b c (suc len) mem = put mem b (u8 c) >>= memset (b + 1) c len

-- `for (i = 0; i < n; i++, x++, y++) *x = *y;` with `n` bytes to go.
unfoldable pub memcpy : (dest src n : ℕ) → Memory → Run Memory
unfolding load put
memcpy dest src zero mem = ok mem
memcpy dest src (suc n) mem = do c ← load mem src; put mem dest c >>= memcpy (dest + 1) (src + 1) n

-- The `n` bytes from `lo` on are mapped.
abbrev pub Block : Memory → ℕ → ℕ → Type 0
Block mem lo n = (p : ℕ) → lo ≤ p → p < lo + n → (b : ℕ) × (mem p ≡ some b)

abbrev pub inside : ℕ → ℕ → ℕ → Bool
inside lo n p = leb lo p && ltb p (lo + n)

store-Block : (mem : Memory) (q v lo n : ℕ) → Block mem lo n → Block (store mem q v) lo n
store-Block mem q v lo n block p h g =
    let (b, found) = block p h g in
    elim (Bool-cases (q == p)) [
      | inl here ↦ (v, ground arith)
      | inr there ↦ (b, ground (arith, found))
    ]

put-store : (mem : Memory) (p v b : ℕ) → mem p ≡ some b → put mem p v ≡ ok (store mem p v)
unfolding put
put-store mem p v b found = ground (arith, found)

-- On a mapped block `memset` succeeds, sets every byte of the block to the lowest byte of `c`, and
-- leaves all other bytes.
pub memset-fills :
    (b c len : ℕ) (mem : Memory)
    → Block mem b len
    → (mem' : Memory) × (memset b c len mem ≡ ok mem')
      × ((p : ℕ) → mem' p ≡ (if inside b len p then some (u8 c) else mem p))
unfolding memset
memset-fills b c zero mem block = (mem, refl, λ p. ground arith)
memset-fills b c (suc len) mem block =
    let (old, found) = block b (omega arith) (omega arith) in
    let (mem', runs, at) =
      memset-fills (b + 1) c len (store mem b (u8 c))
        (store-Block mem b (u8 c) (b + 1) len (λ p h g. block p (omega arith) (omega arith))) in
    (mem', ground (arith, put-store mem b (u8 c) old found, runs), λ p. ground (arith, at p))

-- What one step and the steps behind it copy to the byte `p`.
copied_byte :
    (dest src n c p : ℕ) (mem : Memory)
    → (dest + suc n ≤ src) ⊎ (src + suc n ≤ dest)
    → mem src ≡ some c
    → (if inside (dest + 1) n p
        then store mem dest c (src + 1 + (p - (dest + 1)))
        else store mem dest c p)
      ≡ (if inside dest (suc n) p then mem (src + (p - dest)) else mem p)
copied_byte dest src n c p mem apart there = elim (Bool-cases (dest == p)) [
  | inl first ↦
      let at_src : mem (src + (p - dest)) ≡ mem src = ap mem (ground arith) in
      ground (arith, at_src, there)
  | inr other ↦ elim (Bool-cases (inside (dest + 1) n p)) [
    | inl later ↦
        let same : mem (src + 1 + (p - (dest + 1))) ≡ mem (src + (p - dest)) =
          ap mem (ground arith) in
        ground (arith, same, apart)
    | inr out ↦ ground arith
  ]
]

-- Between mapped blocks that do not overlap `memcpy` succeeds, gives every byte of the destination
-- the value of its byte of the source, and leaves all other bytes, those of the source included.
pub memcpy-copies :
    (dest src n : ℕ) (mem : Memory)
    → Block mem dest n
    → Block mem src n
    → (dest + n ≤ src) ⊎ (src + n ≤ dest)
    → (mem' : Memory) × (memcpy dest src n mem ≡ ok mem')
      × ((p : ℕ) → mem' p ≡ (if inside dest n p then mem (src + (p - dest)) else mem p))
unfolding memcpy load
memcpy-copies dest src zero mem to from apart = (mem, refl, λ p. ground arith)
memcpy-copies dest src (suc n) mem to from apart =
    let (old, found) = to dest (omega arith) (omega arith) in
    let (c, there) = from src (omega arith) (omega arith) in
    let mem1 = store mem dest c in
    let (mem', runs, at) =
      memcpy-copies (dest + 1) (src + 1) n mem1
        (store-Block mem dest c (dest + 1) n (λ p h g. to p (omega arith) (omega arith)))
        (store-Block mem dest c (src + 1) n (λ p h g. from p (omega arith) (omega arith)))
        (elim apart [ inl l ↦ inl (omega arith) | inr r ↦ inr (omega arith) ]) in
    (
      mem',
      ground (arith, put-store mem dest c old found, runs),
      λ p. at p ∙ copied_byte dest src n c p mem apart there,
    )
