-- ===== src/Acpi/Checksum.antt =====
-- The checksum of a table, arch/x86_64/src/rsdt.c.
use raccoon_exok.Common.{
  ℕ, ◌+◌, ◌<◌, ◌%◌, ◌≡◌, ◌≢◌, ◌∙◌, ap, List, [], ◌∷◌, ◌++◌, length, ◌==◌, some, arith, true, false,
}
use raccoon_exok.Common.Run.{ok}
use raccoon_exok.Memory.{Memory, load}
use raccoon_exok.Acpi.{load_le, sum_loop, checksum}

-- At `p` stand the bytes `bs`.
abbrev pub BytesAt : Memory → ℕ → List ℕ → Type 0
BytesAt mem p [] = Unit
BytesAt mem p (b ∷ bs) = (mem p ≡ some b) × BytesAt mem (p + 1) bs

abbrev pub sum : List ℕ → ℕ
sum [] = 0
sum (b ∷ bs) = b + sum bs

sum-append : (xs : List ℕ) (b : ℕ) (ys : List ℕ) → sum (xs ++ b ∷ ys) ≡ sum xs + b + sum ys
sum-append [] b ys = omega arith
sum-append (x ∷ xs) b ys = omega (arith, sum-append xs b ys)

sum_loop-sum :
    (mem : Memory) (bs : List ℕ) (p s : ℕ)
    → BytesAt mem p bs
    → s < 256
    → sum_loop mem (length bs) p s ≡ ok ((s + sum bs) % 256)
unfolding sum_loop load
sum_loop-sum mem [] p s at h = ap ok (omega arith)
sum_loop-sum mem (b ∷ bs) p s (here, at) h =
    let rest : sum_loop mem (length bs) (p + 1) ((s + b) % 256) ≡ ok ((s + (b + sum bs)) % 256) =
      sum_loop-sum mem bs (p + 1) ((s + b) % 256) at (omega arith) ∙ ap ok (omega arith) in
    ground (arith, here, rest)

checksum-sum :
    (mem : Memory) (header : ℕ) (bs : List ℕ)
    → BytesAt mem header bs
    → load_le mem 4 (header + 4) ≡ ok (length bs)
    → checksum mem header ≡ ok (sum bs % 256 == 0)
unfolding checksum
checksum-sum mem header bs at size =
    ground (arith, size, sum_loop-sum mem bs header 0 at (omega arith))

-- A table that passes `checksum` does not pass it any more when one of its bytes, outside of its
-- length, has another value.
pub checksum-detects :
    (mem mem' : Memory) (header b c : ℕ) (xs ys : List ℕ)
    → BytesAt mem header (xs ++ b ∷ ys)
    → BytesAt mem' header (xs ++ c ∷ ys)
    → b < 256
    → c < 256
    → b ≢ c
    → load_le mem 4 (header + 4) ≡ ok (length (xs ++ b ∷ ys))
    → load_le mem' 4 (header + 4) ≡ ok (length (xs ++ c ∷ ys))
    → checksum mem header ≡ ok true
    → checksum mem' header ≡ ok false
checksum-detects mem mem' header b c xs ys at at' hb hc differs size size' valid = ground (
  arith,
  checksum-sum mem header (xs ++ b ∷ ys) at size,
  checksum-sum mem' header (xs ++ c ∷ ys) at' size',
  sum-append xs b ys,
  sum-append xs c ys,
  valid,
)
