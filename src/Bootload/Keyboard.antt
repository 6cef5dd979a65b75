-- ===== src/Bootload/Keyboard.antt =====
-- `keyboard_handling` of arch/x86_64/bootload/scrn.c.
pub mod Scancodes
use raccoon_exok.Common.{
  ℕ, ◌==◌, ◌||◌, Bool, if◌then◌else◌, List, [], ◌∷◌, Option, none, some, get_elem?,
}
use raccoon_exok.Common.Run.{Run, ok, fault}
use raccoon_exok.Bootload.Console.{Console, read_port, bytes}
use raccoon_exok.Bootload.Screen.{putch, suppr, supprl}
use raccoon_exok.Bootload.Output.{puts}
use raccoon_exok.Bootload.Format.{put_screen}

abbrev pub keymap : List ℕ
keymap =
    0 ∷ 0 ∷ 38 ∷ 101 ∷ 34 ∷ 39 ∷ 40 ∷ 45 ∷ 101 ∷ 95 ∷ 99 ∷ 97 ∷ 41 ∷ 61 ∷ 0 ∷ 0 ∷ 97 ∷ 122 ∷ 101
    ∷ 114 ∷ 116 ∷ 121 ∷ 117 ∷ 105 ∷ 111 ∷ 112 ∷ 0 ∷ 36 ∷ 0 ∷ 0 ∷ 113 ∷ 115 ∷ 100 ∷ 102 ∷ 103 ∷ 104
    ∷ 106 ∷ 107 ∷ 108 ∷ 109 ∷ 117 ∷ 0 ∷ 0 ∷ 42 ∷ 119 ∷ 120 ∷ 99 ∷ 118 ∷ 98 ∷ 110 ∷ 44 ∷ 59 ∷ 58 ∷ 33
    ∷ 0 ∷ 42 ∷ 0 ∷ 32 ∷ 0 ∷ 32 ∷ 0 ∷ 0 ∷ 0 ∷ 0 ∷ 0 ∷ 0 ∷ 0 ∷ 0 ∷ 0 ∷ 0 ∷ 0 ∷ 0 ∷ 0 ∷ 0 ∷ 0 ∷ 0 ∷ 45
    ∷ 0 ∷ 0 ∷ 0 ∷ 43 ∷ 0 ∷ 0 ∷ 0 ∷ 0 ∷ 0 ∷ 0 ∷ 0 ∷ 0 ∷ []

-- The cases that do nothing.
abbrev pub ignored : ℕ → Bool
ignored scancode =
    scancode == 0xa0
    || scancode == 0xa2
    || scancode == 0xa3
    || scancode == 0x91
    || scancode == 0x94
    || scancode == 0x96
    || scancode == 0x97

-- The default case: beyond its 89 entries `keymap` is not checked.
unfoldable pub put_key : (scancode : ℕ) → Console → Run Console
put_key scancode s = elim (get_elem? keymap scancode) [ none ↦ fault | some c ↦ put_screen c s ]

-- The switch.
unfoldable pub handle_key : (scancode : ℕ) → Console → Run Console
handle_key scancode s =
    if scancode == 1
    then supprl 80 s
    else if scancode == 0x1c
    then ok (putch 10 s)
    else if scancode == 0x8e
    then ok (suppr s)
    else if ignored scancode
    then ok s
    else if scancode == 29
    then puts put_screen (bytes "CTRL") s
    else put_key scancode s

unfoldable pub keyboard_handling : (inb : ℕ → Console → ℕ) → Console → Run Console
keyboard_handling inb s = let (scancode, s) = read_port inb 0x60 s in handle_key scancode s
