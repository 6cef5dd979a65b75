-- ===== src/Initfs.antt =====
-- kernel/src/initfs.c: the files of the initial memory disk. The array `initrd_files` stands in the
-- byte memory with the names of its entries; the other fields of an entry are in `files`.
pub mod Copy
pub mod Table
mod Tests
use raccoon_exok.Common.{
  ℕ, zero, suc, ◌+◌, ◌*◌, ◌-◌, Option, none, some, List, [], ◌∷◌, ◌++◌, length, leb, ltb, ◌==◌,
  if◌then◌else◌,
}
use raccoon_exok.Common.Run.{Run, ok, halted, out_of_fuel, ◌>>=◌}
use raccoon_exok.Memory.{Memory, load, put}
use raccoon_exok.Strings.{my_strcmp}

abbrev pub max_files_in_initrd : ℕ
max_files_in_initrd = 32

abbrev pub max_filename_size : ℕ
max_filename_size = 128

-- `struct file` but for its name, which is the 128 bytes at the entry's address.
pub record File : Type 0 where
  pub begin : ℕ
  pub end : ℕ
  pub cursor : ℕ

-- `sizeof(struct file)`.
abbrev pub file_size : ℕ
file_size = 152

-- The memory, the address of `initrd_files`, and its first `file_count` entries.
pub record Initfs : Type 0 where
  pub mem : Memory
  pub initrd_files : ℕ
  pub files : List File

abbrev pub name_at : ℕ → ℕ → ℕ
name_at initrd_files i = initrd_files + file_size * i

-- `for (i = 0; i < n-1 && src[i]; i++) dest[i] = src[i]; dest[i] = 0;` with `rounds` of `n - 1` to go.
unfoldable pub my_strncpy : (dest src rounds i : ℕ) → Memory → Run Memory
unfolding load put
my_strncpy dest src zero i mem = put mem (dest + i) 0
my_strncpy dest src (suc rounds) i mem = do
  c ← load mem (src + i)
  let rest = put mem (dest + i) c >>= my_strncpy dest src rounds (i + 1)
  if c == 0 then put mem (dest + i) 0 else rest

unfoldable pub register_new_file : (name begin end : ℕ) → Initfs → Run Initfs
unfolding my_strncpy
register_new_file name begin end s = if leb max_files_in_initrd (length s.files) then halted else do
  mem ← my_strncpy (name_at s.initrd_files (length s.files)) name (max_filename_size - 1) 0 s.mem
  ok (record s {
    mem = mem;
    files = s.files ++ (record { begin = begin; end = end; cursor = 0 } ∷ []);
  })

-- The loop from entry `i` on: the index of the entry, or `none` for `NULL`.
unfoldable pub get_file_loop :
    (mem : Memory) (fuel initrd_files name i : ℕ) → List File → Run (Option ℕ)
unfolding my_strcmp
get_file_loop mem fuel initrd_files name i [] = ok none
get_file_loop mem fuel initrd_files name i (f ∷ rest) = do
  differs ← my_strcmp mem fuel (name_at initrd_files i) name
  let later = get_file_loop mem fuel initrd_files name (i + 1) rest
  if differs == 0 then ok (some i) else later

-- With `fuel` for each comparison.
unfoldable pub get_file : (fuel name : ℕ) → Initfs → Run (Option ℕ)
unfolding get_file_loop
get_file fuel name s = get_file_loop s.mem fuel s.initrd_files name 0 s.files
