-- ===== src/Numbers.antt =====
-- Numbers as text: kernel/src/utils/string/convert.c prints them, `atou` of kernel/src/parse_init.c and
-- `strtoul` of kernel/src/parse_capability_map.c read them. The loops run on fuel.
pub mod Print
pub mod Read
mod Tests
use raccoon_exok.Common.{
  ℕ, zero, suc, ◌+◌, ◌-◌, ◌*◌, ◌/◌, ◌%◌, ◌^◌, Option, none, some, Bool, true, false, List, [], ◌∷◌,
  ◌&&◌, ◌||◌, leb, ltb, ◌==◌, if◌then◌else◌, get_or,
}
use raccoon_exok.Common.Run.{Run, ok, fault, out_of_fuel, ◌>>=◌}
use raccoon_exok.Common.Word.{u32, u64, sub64, mul64}
use raccoon_exok.Memory.{Memory, load, put}

-- `for (; x; x /= base) *--s = list[x % base];`
unfoldable pub digit_loop : (base : ℕ) (list : ℕ → ℕ) (fuel x s : ℕ) → Memory → Run (ℕ × Memory)
unfolding put
digit_loop base list zero x s mem = out_of_fuel
digit_loop base list (suc fuel) x s mem =
    let rest =
      put mem (sub64 s 1) (list (x % base)) >>= digit_loop base list fuel (x / base) (sub64 s 1) in
    if x == 0 then ok (s, mem) else rest

-- `*--s = 0; if (!x) *--s = '0';` and the loop.
unfoldable pub print_number : (base : ℕ) (list : ℕ → ℕ) (fuel x s : ℕ) → Memory → Run (ℕ × Memory)
unfolding put digit_loop
print_number base list fuel x s mem = do
  mem ← put mem (sub64 s 1) 0
  let nought = put mem (sub64 s 2) 48 >>= digit_loop base list fuel x (sub64 s 2)
  if x == 0 then nought else digit_loop base list fuel x (sub64 s 1) mem

abbrev pub hex_list : List ℕ
hex_list = 48 ∷ 49 ∷ 50 ∷ 51 ∷ 52 ∷ 53 ∷ 54 ∷ 55 ∷ 56 ∷ 57 ∷ 97 ∷ 98 ∷ 99 ∷ 100 ∷ 101 ∷ 102 ∷ []

unfoldable pub dec : (fuel x s : ℕ) → Memory → Run (ℕ × Memory)
dec = print_number 10 (λ d. 48 + d)

-- `decX`
unfoldable pub dec_x : (fuel x s : ℕ) → Memory → Run (ℕ × Memory)
dec_x = print_number 16 (λ d. get_or hex_list d 0)

abbrev pub between : ℕ → ℕ → ℕ → Bool
between lo hi c = leb lo c && leb c hi

-- `*str - '0'`, `*str - 'a' + 10` or `*str - 'A' + 10`, and `none` at another character.
abbrev pub hex_digit : ℕ → Option ℕ
hex_digit c =
    if between 48 57 c
    then some (c - 48)
    else if between 97 102 c
    then some (c - 97 + 10)
    else if between 65 70 c
    then some (c - 65 + 10)
    else none

module _ (mem : Memory) where
  -- The number and `*ptr`, the place behind it. `to_return * 10 + *str++ - '0'` is an `uint32_t`.
  unfoldable pub atou : (fuel to_return str : ℕ) → Run (ℕ × ℕ)
  unfolding load
  atou zero to_return str = out_of_fuel
  atou (suc fuel) to_return str = do
    c ← load mem str
    let rest = atou fuel (u32 (to_return * 10 + c + (2 ^ 32 - 48))) (str + 1)
    if between 48 57 c then rest else ok (to_return, str)

  -- The number and `*end`, in the arithmetic of `uintptr_t`.
  unfoldable pub strtoul : (base fuel to_return str : ℕ) → Run (ℕ × ℕ)
  unfolding load
  strtoul base zero to_return str = out_of_fuel
  strtoul base (suc fuel) to_return str = do
    c ← load mem str
    elim (hex_digit c) [
      | none ↦ ok (to_return, str)
      | some d ↦ strtoul base fuel (u64 (mul64 to_return base + d)) (str + 1)
    ]
