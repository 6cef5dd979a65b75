-- ===== src/Initfs/Table.antt =====
-- kernel/src/initfs.c: a file that was registered is found again under its name.
use raccoon_exok.Common.{
  ℕ, ◌+◌, ◌≤◌, ◌<◌, ◌≡◌, inl, inr, refl, ap, subst, ◌∙◌, Option, none, some, List, [], ◌∷◌, ◌++◌,
  length, get_elem?, if◌then◌else◌, arith, length-append,
}
use native.Mathlib.Nat.{zero-add}
use raccoon_exok.Common.Run.{ok}
use raccoon_exok.Memory.{Memory, StrAt}
use raccoon_exok.Strings.Equality.{same_text, same_text_iff, my_strcmp-same_text}
use raccoon_exok.Initfs.{Initfs, File, name_at, register_new_file, get_file, get_file_loop}
use raccoon_exok.Initfs.Copy.{
  take, length-take, take_all, StrAt-agrees, Mapped, Apart, my_strncpy-Copied,
}

-- From entry `i` on, the entries' names are the texts `names`, each of at most 127 bytes.
abbrev pub NamedFrom : Memory → ℕ → ℕ → List (List ℕ) → Type 0
NamedFrom mem base i [] = Unit
NamedFrom mem base i (n ∷ ns) =
    StrAt mem (name_at base i) n × (length n ≤ 127) × NamedFrom mem base (i + 1) ns

-- The last byte of the array `initrd_files`.
abbrev pub last_byte : ℕ → ℕ
last_byte base = base + 4863

pub record IsTable (s : Initfs) (names : List (List ℕ)) : Type 0 where
  pub mapped : Mapped s.mem s.initrd_files (last_byte s.initrd_files)
  pub named : NamedFrom s.mem s.initrd_files 0 names
  pub same_length : length names ≡ length s.files
  pub room : length s.files ≤ 32

-- The index of the first of `names` that is `n`.
abbrev pub position : ℕ → List ℕ → List (List ℕ) → Option ℕ
position i n [] = none
position i n (k ∷ ks) = if same_text k n then some i else position (i + 1) n ks

get_file_loop-position :
    (mem : Memory) (fuel base name i : ℕ) (n : List ℕ) (names : List (List ℕ)) (files : List File)
    → 127 < fuel
    → StrAt mem name n
    → NamedFrom mem base i names
    → length names ≡ length files
    → get_file_loop mem fuel base name i files ≡ ok (position i n names)
unfolding get_file_loop
get_file_loop-position mem fuel base name i n [] [] big at named e = refl
get_file_loop-position mem fuel base name i n [] (f ∷ fs) big at named e = absurd (omega arith)
get_file_loop-position mem fuel base name i n (k ∷ ks) [] big at named e = absurd (omega arith)
get_file_loop-position mem fuel base name i n (k ∷ ks) (f ∷ fs) big at (here, short, named) e =
    ground (
      arith,
      my_strcmp-same_text mem fuel (name_at base i) name k n here at (omega arith),
      get_file_loop-position mem fuel base name (i + 1) n ks fs big at named (omega arith),
    )

-- The texts before the end of a table stay when only bytes behind them change.
NamedFrom-agrees :
    (mem mem' : Memory) (base i : ℕ) (names : List (List ℕ))
    → ((q : ℕ) → q < name_at base (i + length names) → mem' q ≡ mem q)
    → NamedFrom mem base i names
    → NamedFrom mem' base i names
NamedFrom-agrees mem mem' base i [] same named = tt
NamedFrom-agrees mem mem' base i (n ∷ ns) same (here, short, named) = (
  StrAt-agrees mem mem' (name_at base i) n (λ q h g. same q (omega arith)) here,
  short,
  NamedFrom-agrees mem mem' base (i + 1) ns (λ q h. same q (omega arith)) named,
)

NamedFrom-append :
    (mem : Memory) (base i : ℕ) (names : List (List ℕ)) (n : List ℕ)
    → NamedFrom mem base i names
    → StrAt mem (name_at base (i + length names)) n
    → length n ≤ 127
    → NamedFrom mem base i (names ++ (n ∷ []))
NamedFrom-append mem base i [] n named at short =
    (subst (λ (j : ℕ). StrAt mem (name_at base j) n) (omega arith) at, short, tt)
NamedFrom-append mem base i (k ∷ ks) n (here, small, named) at short = (
  here,
  small,
  NamedFrom-append mem base (i + 1) ks n named
      (subst (λ (j : ℕ). StrAt mem (name_at base j) n) (omega arith) at) short,
)

-- The table with one more file.
abbrev pub added : Initfs → Memory → ℕ → ℕ → Initfs
added s mem begin end = record s {
  mem = mem;
  files = s.files ++ (record { begin = begin; end = end; cursor = 0 } ∷ []);
}

-- With room for a file, and a name that is a text outside the array, `register_new_file` succeeds,
-- appends the file with its cursor at 0, keeps the table well formed, with the first 127 bytes of
-- the name as its last name, and changes no byte outside the array.
pub register_new_file-IsTable :
    (s : Initfs) (names : List (List ℕ)) (name begin end : ℕ) (n : List ℕ)
    → IsTable s names
    → length s.files < 32
    → StrAt s.mem name n
    → Apart name (name + length n) s.initrd_files (last_byte s.initrd_files)
    → (mem : Memory) × (register_new_file name begin end s ≡ ok (added s mem begin end))
      × IsTable (added s mem begin end) (names ++ (take 127 n ∷ []))
      × ((p : ℕ) → Apart p p s.initrd_files (last_byte s.initrd_files) → mem p ≡ s.mem p)
unfolding register_new_file
register_new_file-IsTable s names name begin end n table room at apart =
    let slot = name_at s.initrd_files (length s.files) in
    let (mem, runs, (copied, same, keeps)) =
      my_strncpy-Copied slot name 127 0 s.mem n (subst (λ q. StrAt s.mem q n) (omega arith) at)
        (λ p h g. table.mapped p (omega arith) (omega (arith, room)))
        (elim apart [ inl l ↦ inl (omega arith) | inr r ↦ inr (omega (arith, room)) ]) in
    let below : NamedFrom mem s.initrd_files 0 names =
      NamedFrom-agrees s.mem mem s.initrd_files 0 names
        (λ q h. same q (inl (omega (arith, table.same_length)))) table.named in
    (
      mem,
      ground (arith, runs),
      record {
        mapped = λ p h g. let (b, found) = table.mapped p h g in keeps p b found;
        named =
            NamedFrom-append mem s.initrd_files 0 names (take 127 n) below
              (subst (λ q. StrAt mem q (take 127 n)) (omega (arith, table.same_length)) copied)
              (length-take 127 n);
        same_length =
            length-append names (take 127 n ∷ [])
            ∙ omega (
              arith,
              table.same_length,
              length-append s.files (record { begin = begin; end = end; cursor = 0 } ∷ []),
            );
        room = omega (
          arith,
          room,
          length-append s.files (record { begin = begin; end = end; cursor = 0 } ∷ []),
        );
      },
      λ p out. elim out [
        | inl l ↦ same p (inl (omega arith))
        | inr r ↦ same p (inr (omega (arith, room)))
      ],
    )

-- In a well-formed table `get_file` returns, with 128 rounds for each comparison, and gives the
-- first entry whose name is the one asked for, or `NULL` if there is none.
pub get_file-position :
    (s : Initfs) (names : List (List ℕ)) (fuel name : ℕ) (n : List ℕ)
    → IsTable s names
    → 127 < fuel
    → StrAt s.mem name n
    → get_file fuel name s ≡ ok (position 0 n names)
unfolding get_file
get_file-position s names fuel name n table big at =
    get_file_loop-position s.mem fuel s.initrd_files name 0 n names s.files big at table.named
      table.same_length

position-append :
    (i : ℕ) (n : List ℕ) (names : List (List ℕ))
    → position i n names ≡ none
    → position i n (names ++ (n ∷ [])) ≡ some (i + length names)
position-append i n [] h = ground (arith, same_text_iff n n)
position-append i n (k ∷ ks) h = ground (arith, position-append (i + 1) n ks)

get_elem?-last {ℓ} :
    {A : Type ℓ} (xs : List A) (x : A) → get_elem? (xs ++ (x ∷ [])) (length xs) ≡ some x
get_elem?-last [] x = refl
get_elem?-last (y ∷ ys) x = get_elem?-last ys x

-- A file with a name of at most 127 bytes, a text outside the array that no entry has yet, is found
-- after it was registered in a table that is not full: registering succeeds, and `get_file` under
-- the same name then gives the entry with the begin and end that were registered and cursor 0.
pub get_file-register_new_file :
    (s : Initfs) (names : List (List ℕ)) (fuel name begin end : ℕ) (n : List ℕ)
    → IsTable s names
    → length s.files < 32
    → 127 < fuel
    → StrAt s.mem name n
    → length n ≤ 127
    → Apart name (name + length n) s.initrd_files (last_byte s.initrd_files)
    → position 0 n names ≡ none
    → (t : Initfs) × (i : ℕ) × (register_new_file name begin end s ≡ ok t)
      × (get_file fuel name t ≡ ok (some i))
      × (get_elem? t.files i ≡ some (record { begin = begin; end = end; cursor = 0 }))
get_file-register_new_file s names fuel name begin end n table room big at short apart new =
    let (mem, runs, still, same) =
      register_new_file-IsTable s names name begin end n table room at apart in
    let there : StrAt mem name n =
      StrAt-agrees s.mem mem name n
        (λ q h g. same q (elim apart [ inl l ↦ inl (omega arith) | inr r ↦ inr (omega arith) ]))
        at in
    (
      added s mem begin end,
      length names,
      runs,
      get_file-position (added s mem begin end) (names ++ (take 127 n ∷ [])) fuel name n still big
            there
          ∙ ap (λ t. ok (position 0 n (names ++ (t ∷ [])))) (take_all 127 n short)
          ∙ ap ok (position-append 0 n names new ∙ ap some (zero-add (length names))),
      ap (get_elem? (added s mem begin end).files) table.same_length
          ∙ get_elem?-last s.files (record { begin = begin; end = end; cursor = 0 }),
    )
