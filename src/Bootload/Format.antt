-- ===== src/Bootload/Format.antt =====
-- `printf` and `sprintf` of arch/x86_64/bootload/scrn.c, and the serial port of
-- arch/x86_64/bootload/seriesport.c that `sprintf` writes to.
pub mod Text
use raccoon_exok.Common.{
  ℕ, zero, suc, ◌+◌, ◌-◌, ◌^◌, bit_and, ltb, ◌==◌, if◌then◌else◌, List, [], ◌∷◌, ◌++◌, replicate,
}
use raccoon_exok.Common.Run.{Run, ok, fault, out_of_fuel, ◌>>=◌}
use raccoon_exok.Common.Int.{ℤ, pos, negsuc}
use raccoon_exok.Common.Word.{u8, u32}
use raccoon_exok.Bootload.Console.{Console, outb, read_port}
use raccoon_exok.Bootload.Screen.{putch}
use raccoon_exok.Bootload.Output.{
  puts, putint, hex_loop, reverse_loop, strlen_of, sputhex, putbin, put_bin,
}

-- The arguments of a call, as `va_arg` reads them: 32 bits, 64 bits, or a text. To read another kind
-- than was passed, or more than were passed, is undefined.
pub data Arg : Type 0 where
  word wide : ℕ → Arg
  text : List ℕ → Arg

abbrev pub to_int : ℕ → ℤ
to_int n = if ltb n (2 ^ 31) then pos n else negsuc (2 ^ 32 - 1 - n)

module _ {ℓ} {S : Type ℓ} where
  abbrev pub with_word : (ℕ → S → Run S) → List Arg → S → Run (List Arg × S)
  with_word f (word n ∷ args) s = f n s >>= λ s. ok (args, s)
  with_word f _ s = fault

  abbrev pub with_wide : (ℕ → S → Run S) → List Arg → S → Run (List Arg × S)
  with_wide f (wide n ∷ args) s = f n s >>= λ s. ok (args, s)
  with_wide f _ s = fault

  abbrev pub with_text : (List ℕ → S → Run S) → List Arg → S → Run (List Arg × S)
  with_text f (text t ∷ args) s = f t s >>= λ s. ok (args, s)
  with_text f _ s = fault

  -- The loop over the format, with `emit` for a character and `conversion` for the switch. After a
  -- `%` at the end of the text the default case puts the final 0, and the loop goes on behind it.
  module _ (emit : (c : ℕ) → S → Run S)
      (conversion : (c : ℕ) → List Arg → S → Run (List Arg × S)) where
    unfoldable pub format_loop : (str : List ℕ) → List Arg → S → Run S
    format_loop [] args s = ok s
    format_loop (c ∷ []) args s =
        let last = emit 0 s >>= λ s. fault in if c == 37 then last else emit c s
    format_loop (c ∷ d ∷ str) args s =
        let converted = conversion d args s >>= λ (args, s). format_loop str args s in
        let plain = emit c s >>= format_loop (d ∷ str) args in if c == 37 then converted else plain

-- The screen's `emit`; the parameter of `putch` is an `unsigned char`.
abbrev pub put_screen : ℕ → Console → Run Console
put_screen c s = ok (putch (u8 c) s)

-- `puthex` keeps its digits in the text of a literal, which the next call finds. Of a negative number,
-- which an `int` of `2 ^ 31` or more is, no digit is stored.
unfoldable pub puthex : (nb : ℕ) → Console → Run Console
puthex nb s = do
  arr ← hex_loop 9 (if ltb nb (2 ^ 31) then nb else 0) 0 s.arr
  reverse_loop put_screen (strlen_of arr + 1) arr (record s { arr = arr })

abbrev pub plain_case {ℓ} : {S : Type ℓ} → (ℕ → S → Run S) → ℕ → List Arg → S → Run (List Arg × S)
plain_case emit c args s = emit c s >>= λ s. ok (args, s)

-- The cases c, s, d, u, x, b and B of `printf`.
abbrev pub printf_case : (c : ℕ) → List Arg → Console → Run (List Arg × Console)
printf_case c =
    if c == 99
    then with_word put_screen
    else if c == 115
    then with_text (puts put_screen)
    else if c == 100
    then with_word (λ n. putint put_screen (to_int n))
    else if c == 117
    then with_word (λ n. putint put_screen (to_int n))
    else if c == 120
    then with_word puthex
    else if c == 98
    then with_word (putbin put_screen)
    else if c == 66
    then with_wide (put_bin put_screen)
    else plain_case put_screen c

unfoldable pub printf : (str : List ℕ) → List Arg → Console → Run Console
printf = format_loop put_screen printf_case

-- The serial port; `inb` is the device.
module _ (inb : ℕ → Console → ℕ) where
  -- The result of `init_serial` is not used by its callers.
  unfoldable pub init_serial : Console → Console
  init_serial s =
      let s = outb 0x3f9 0 s in
      let s = outb 0x3f9 0 (outb 0x3f8 3 (outb 0x3fb 0x80 s)) in
      let s = outb 0x3fc 0x1e (outb 0x3fc 0x0b (outb 0x3fa 0xc7 (outb 0x3fb 3 s))) in
      let (answer, s) = read_port inb 0x3f8 (outb 0x3f8 0xae s) in
      if answer == 0xae then outb 0x3fc 0x0f s else s

  -- `while (is_buffer_empty() == 0);`
  unfoldable pub wait_loop : (fuel : ℕ) → Console → Run Console
  wait_loop zero s = out_of_fuel
  wait_loop (suc fuel) s =
      let (answer, s) = read_port inb 0x3fd s in
      let rest = wait_loop fuel s in if bit_and answer 0x20 == 0 then rest else ok s

  unfoldable pub send_char : (fuel c : ℕ) → Console → Run Console
  send_char fuel c s = wait_loop fuel (init_serial s) >>= λ s. ok (outb 0x3f8 c s)

  unfoldable pub send_log : (fuel : ℕ) (log : List ℕ) → Console → Run Console
  send_log fuel log s = puts (send_char fuel) log (init_serial s)

  -- The cases c, s, d, u, x, X and b of `sprintf`. `sputHex` takes the lower 32 bits of its argument
  -- and has room for 16 digits.
  abbrev pub sprintf_case : (fuel c : ℕ) → List Arg → Console → Run (List Arg × Console)
  sprintf_case fuel c =
      if c == 99
      then with_word (send_char fuel)
      else if c == 115
      then with_text (puts (send_char fuel))
      else if c == 100
      then with_word (λ n. putint (send_char fuel) (to_int n))
      else if c == 117
      then with_word (λ n. putint (send_char fuel) (to_int n))
      else if c == 120
      then with_word (sputhex (send_char fuel) (replicate 8 48 ++ (0 ∷ [])))
      else if c == 88
      then with_wide (λ n. sputhex (send_char fuel) (replicate 16 48 ++ (0 ∷ [])) (u32 n))
      else if c == 98
      then with_word (putbin (send_char fuel))
      else plain_case (send_char fuel) c

  unfoldable pub sprintf : (fuel : ℕ) (str : List ℕ) → List Arg → Console → Run Console
  sprintf fuel = format_loop (send_char fuel) (sprintf_case fuel)
