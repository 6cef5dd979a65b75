-- ===== src/Bootload/Console.antt =====
-- The state of arch/x86_64/bootload/scrn.c, and the writes to the ports of main.c.
use raccoon_exok.Common.{ℕ, ◌+◌, List, [], ◌∷◌}
use Prim.Native.String.{String}
use Prim.Native.Char.{code}
use raccoon_exok.Common.Word.{u8}

-- The variables of scrn.c. `textmem` has the 16-bit cells from `textmemptr` on; `arr` the bytes of the
-- text that `puthex` writes to; `ports` the bytes written to ports, the latest first, and `reads` counts the reads of
-- ports.
pub record Console : Type 0 where
  pub textmem : ℕ → ℕ
  pub attrib : ℕ
  pub csr_x : ℕ
  pub csr_y : ℕ
  pub arr : List ℕ
  pub ports : List (ℕ × ℕ)
  pub reads : ℕ

abbrev pub outb : (port value : ℕ) → Console → Console
outb port value s = record s { ports = (port, u8 value) ∷ s.ports }

-- `inb(port)` of a device that answers by what was written and how often it was read.
abbrev pub read_port : (inb : ℕ → Console → ℕ) (port : ℕ) → Console → ℕ × Console
read_port inb port s = (inb port s, record s { reads = s.reads + 1 })

-- The bytes of a literal.
abbrev pub bytes : String → List ℕ
bytes String.[] = []
bytes (String.◌∷◌ c text) = code c ∷ bytes text
