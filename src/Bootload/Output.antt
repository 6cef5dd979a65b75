-- ===== src/Bootload/Output.antt =====
-- Numbers and formats of arch/x86_64/bootload/scrn.c. The functions for the screen and those for the
-- serial port are the same but for the function that puts a character, `emit` here.
pub mod Binary
pub mod Hex
pub mod Decimal
use raccoon_exok.Common.{
  ℕ, zero, suc, ◌+◌, ◌-◌, ◌*◌, ◌/◌, ◌%◌, ◌^◌, bit_and, ltb, leb, ◌==◌, if◌then◌else◌, Bool, true,
  false, List, [], ◌∷◌, Option, none, some, get_elem?, set, length,
}
use raccoon_exok.Common.Run.{Run, ok, fault, out_of_fuel, ◌>>=◌}
use raccoon_exok.Common.Int.{ℤ, pos, negsuc}
use raccoon_exok.Common.Word.{u8, u32, u64, ◌>>◌}

-- `while (nb > 0) { nb /= 10; count *= 10; }`; an `int` that overflows is undefined.
unfoldable pub count_loop : (fuel nb count : ℕ) → Run ℕ
count_loop zero nb count = out_of_fuel
count_loop (suc fuel) nb count =
    let rest =
      if ltb (count * 10) (2 ^ 31) then count_loop fuel (nb / 10) (count * 10) else fault in
    if nb == 0 then ok count else rest

-- `(saved / count) + 48` as a byte, where `saved` is `m` or, when `negative`, -m.
abbrev pub digit_of : (negative : Bool) (m count : ℕ) → ℕ
digit_of negative m count =
    if negative then u8 (48 + 2 ^ 8 - u8 (m / count)) else u8 (m / count + 48)

-- The 9 bytes of `arr`: the digits of `nb` from the lowest on, each in its place; a tenth byte is
-- outside.
abbrev pub hex_char : ℕ → ℕ
hex_char temp = if ltb temp 10 then temp + 48 else temp + 55

unfoldable pub hex_loop : (fuel nb i : ℕ) → List ℕ → Run (List ℕ)
hex_loop zero nb i arr = out_of_fuel
hex_loop (suc fuel) nb i arr =
    let rest =
      if ltb i (length arr)
      then hex_loop fuel (nb / 16) (i + 1) (set arr i (hex_char (nb % 16)))
      else fault in
    if nb == 0 then ok arr else rest

abbrev pub strlen_of : List ℕ → ℕ
strlen_of [] = 0
strlen_of (c ∷ s) = if c == 0 then 0 else suc (strlen_of s)

module _ {ℓ} {S : Type ℓ} (emit : (c : ℕ) → S → Run S) where
  -- `puts` and `sputs`: the text without its final 0.
  unfoldable pub puts : (text : List ℕ) → S → Run S
  puts [] s = ok s
  puts (c ∷ text) s = emit c s >>= puts text

  -- `while (count > 0)`; the first round, when `x` is 0, prints nothing.
  unfoldable pub print_loop : (fuel : ℕ) (negative : Bool) (x m count : ℕ) → S → Run S
  print_loop zero negative x m count s = out_of_fuel
  print_loop (suc fuel) negative x m count s =
      let printed =
        emit (digit_of negative m count) s
        >>= print_loop fuel negative x (m - m / count * count) (count / 10) in
      let started = print_loop fuel negative (x + 1) m (count / 10) s in
      if count == 0 then ok s else if leb 1 x then printed else started

  -- `putint` and `sputint`: at most 10 digits. `nb *= -1` overflows at -2 ^ 31.
  unfoldable pub putint : (nb : ℤ) → S → Run S
  putint (pos n) s =
      let number = count_loop 11 n 1 >>= λ count. print_loop 12 false 0 n count s in
      if n == 0 then emit 48 s else number
  putint (negsuc k) s =
      let number = emit 45 s >>= λ s.
      count_loop 11 (k + 1) 1 >>= λ count. print_loop 12 true 0 (k + 1) count s in
      if ltb (k + 1) (2 ^ 31) then number else fault

  -- `for (i = strlen(arr); i >= 0; i--) emit(arr[i]);` for `i + 1` rounds.
  unfoldable pub reverse_loop : (rounds : ℕ) → List ℕ → S → Run S
  reverse_loop zero arr s = ok s
  reverse_loop (suc i) arr s = elim (get_elem? arr i) [
    | none ↦ fault
    | some c ↦ emit c s >>= reverse_loop i arr
  ]

  -- `sputhex`, and `sputHex` with 16 places; an `uint32_t` has at most 8 digits.
  unfoldable pub sputhex : (arr : List ℕ) (nb : ℕ) → S → Run S
  sputhex arr nb s = do arr ← hex_loop 9 nb 0 arr; reverse_loop (strlen_of arr + 1) arr s

  -- `putbin` and `sputbin` from `val = 0b10000000` on, `putBin` and `sputBin` from `2 ^ 15` on.
  unfoldable pub bin_loop : (fuel nb val : ℕ) → S → Run S
  bin_loop zero nb val s = out_of_fuel
  bin_loop (suc fuel) nb val s =
      let rest = emit (if bit_and nb val == 0 then 48 else 49) s >>= bin_loop fuel nb (val >> 1) in
      if val == 0 then ok s else rest

  unfoldable pub putbin : (nb : ℕ) → S → Run S
  putbin nb = bin_loop 9 nb (2 ^ 7)

  unfoldable pub put_bin : (nb : ℕ) → S → Run S
  put_bin nb = bin_loop 17 nb (2 ^ 15)
