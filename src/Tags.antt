-- ===== src/Tags.antt =====
-- arch/x86_64/src/tagmgr.c: the tags that the boot loader hands over.
mod Tests
use raccoon_exok.Common.{
  ℕ, zero, suc, ◌+◌, ◌<◌, ◌≡◌, ◌≢◌, refl, Option, none, some, List, [], ◌∷◌, length, ◌==◌,
  if◌then◌else◌, arith,
}
use raccoon_exok.Common.Run.{Run, ok, fault, out_of_fuel}

-- `struct stivale2_tag`: `next` is an address, 0 at the end.
pub record Tag : Type 0 where
  pub identifier : ℕ
  pub next : ℕ

-- The address of the first tag with identifier `id`, and 0 if there is none.
abbrev pub first_tag : ℕ → List (ℕ × ℕ) → ℕ
first_tag id [] = 0
first_tag id ((a, i) ∷ tags) = if i == id then a else first_tag id tags

module _ (mem : ℕ → Option Tag) where
  -- The loop of `stivale2_get_tag` at the tag `current_tag`.
  unfoldable pub stivale2_get_tag : (fuel id current_tag : ℕ) → Run ℕ
  stivale2_get_tag zero id current_tag = out_of_fuel
  stivale2_get_tag (suc fuel) id current_tag =
      if current_tag == 0 then ok 0 else elim (mem current_tag) [
        | none ↦ fault
        | some tag ↦
            if tag.identifier == id then ok current_tag else stivale2_get_tag fuel id tag.next
      ]

  -- From address `p` on stand the tags of the addresses and identifiers `tags`.
  abbrev pub Chain : ℕ → List (ℕ × ℕ) → Type 0
  Chain p [] = p ≡ 0
  Chain p ((a, id) ∷ tags) =
      (p ≡ a)
      × (a ≢ 0)
      × ((q : ℕ) × (mem a ≡ some (record { identifier = id; next = q })) × Chain q tags)

  -- On a chain of tags, with fuel above their number, `stivale2_get_tag` returns the address of the
  -- first tag that has the identifier, or 0 if none has.
  pub stivale2_get_tag-first :
      (fuel id p : ℕ) (tags : List (ℕ × ℕ))
      → Chain p tags
      → length tags < fuel
      → stivale2_get_tag fuel id p ≡ ok (first_tag id tags)
  unfolding stivale2_get_tag
  stivale2_get_tag-first zero id p tags chain h = absurd (omega arith)
  stivale2_get_tag-first (suc fuel) id p [] chain h = ground arith
  stivale2_get_tag-first (suc fuel) id p ((a, i) ∷ tags) (here, nz, (q, found, rest)) h =
      ground (arith, stivale2_get_tag-first fuel id q tags rest (omega arith))
