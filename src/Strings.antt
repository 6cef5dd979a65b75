-- ===== src/Strings.antt =====
-- The string routines of the kernel: kernel/src/utils/string/string.c, the static comparisons of
-- kernel/src/capability_recorder.c and kernel/src/initfs.c, and `strncmp` and `strlen` of
-- kernel/src/parse_capability_map.c. A loop whose end the text decides runs on fuel.
pub mod Equality
use raccoon_exok.Common.{
  ℕ, zero, suc, ◌+◌, ◌-◌, Bool, true, false, not, List, [], ◌∷◌, ltb, ◌==◌, if◌then◌else◌,
}
use raccoon_exok.Common.Run.{Run, ok, out_of_fuel, ◌>>=◌}
use raccoon_exok.Common.Int.{ℤ, sub_ℕ}
use raccoon_exok.Memory.{Memory, load}

-- `*a - *b` on plain `char`, which is signed: 128 to 255 stand for -128 to -1.
unfoldable pub char_difference : ℕ → ℕ → ℤ
char_difference x y =
    sub_ℕ (x + (if ltb y 128 then 0 else 256)) (y + (if ltb x 128 then 0 else 256))

module _ (mem : Memory) where
  -- `while (*a && *b && *a == *b) { a++; b++; } return *a - *b;`
  unfoldable pub second_strcmp : (fuel a b : ℕ) → Run ℤ
  unfolding load char_difference
  second_strcmp zero a b = out_of_fuel
  second_strcmp (suc fuel) a b = do
    x ← load mem a
    y ← load mem b
    let rest = second_strcmp fuel (a + 1) (b + 1)
    if x == 0
        then ok (char_difference x y)
        else if y == 0
        then ok (char_difference x y)
        else if x == y
        then rest
        else ok (char_difference x y)

  -- `while (*a && *b) if (*a++ != *b++) return 1; return *a != *b;`
  unfoldable pub my_strcmp : (fuel a b : ℕ) → Run ℕ
  unfolding load
  my_strcmp zero a b = out_of_fuel
  my_strcmp (suc fuel) a b = do
    x ← load mem a
    y ← load mem b
    let rest = my_strcmp fuel (a + 1) (b + 1)
    if x == 0
        then ok (if x == y then 0 else 1)
        else if y == 0
        then ok (if x == y then 0 else 1)
        else if x == y
        then rest
        else ok 1

  -- `for (; *str1 && *str2 && *str1 == *str2; str1++, str2++);` and the three returns. The result is
  -- a `bool`, so that -1 and 1 are both `true`.
  unfoldable pub strcmp : (fuel a b : ℕ) → Run Bool
  unfolding load
  strcmp zero a b = out_of_fuel
  strcmp (suc fuel) a b = do
    x ← load mem a
    y ← load mem b
    let rest = strcmp fuel (a + 1) (b + 1)
    if not (x == 0)
        then (if not (y == 0) then (if x == y then rest else ok true) else ok true)
        else if x == y
        then ok false
        else ok true

  -- `for (i = 0; i < n; i++) if (a[i] != b[i]) return 1; return 0;` with `n` bytes to go.
  unfoldable pub strncmp : (a b n : ℕ) → Run ℕ
  unfolding load
  strncmp a b zero = ok 0
  strncmp a b (suc n) = do
    x ← load mem a
    y ← load mem b
    let rest = strncmp (a + 1) (b + 1) n
    if x == y then rest else ok 1

  unfoldable pub strlen : (fuel str i : ℕ) → Run ℕ
  unfolding load
  strlen zero str i = out_of_fuel
  strlen (suc fuel) str i = do
    c ← load mem (str + i)
    let rest = strlen fuel str (i + 1)
    if c == 0 then ok i else rest
