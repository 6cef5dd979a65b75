-- ===== src/Bootload/Format/Text.antt =====
-- What `printf` of arch/x86_64/bootload/scrn.c prints.
use raccoon_exok.Common.{
  ℕ, ◌^◌, ◌<◌, ◌≡◌, refl, sym, ap, ◌∙◌, false, ◌==◌, if◌then◌else◌, List, [], ◌∷◌, ◌++◌, arith,
}
use raccoon_exok.Common.Run.{Run, ok, ◌>>=◌}
use raccoon_exok.Common.Int.{pos}
use raccoon_exok.Common.Word.{u8}
use raccoon_exok.Numbers.Read.{decimal_from}
use raccoon_exok.Bootload.Console.{Console}
use raccoon_exok.Bootload.Screen.{putch}
use raccoon_exok.Bootload.Screen.Bounds.{OnScreen, Framed, putch-OnScreen}
use raccoon_exok.Bootload.Output.{puts, putint}
use raccoon_exok.Bootload.Output.Decimal.{decimal, HasDigits, putint-decimal}
use raccoon_exok.Bootload.Format.{Arg, word, format_loop, put_screen, printf, printf_case, to_int}

-- No `%` among the characters.
abbrev pub IsPlain : List ℕ → Type 0
IsPlain [] = Unit
IsPlain (c ∷ str) = ((c == 37) ≡ false) × IsPlain str

Run-right {ℓ} : {A : Type ℓ} (r : Run A) → (r >>= λ a. ok a) ≡ r
Run-right (ok a) = refl
Run-right Run.halted = refl
Run-right Run.fault = refl
Run-right Run.out_of_fuel = refl

bind_assoc {ℓ} :
    {A B C : Type ℓ} (r : Run A) (f : A → Run B) (g : B → Run C)
    → ((r >>= f) >>= g) ≡ (r >>= λ a. f a >>= g)
bind_assoc (ok a) f g = refl
bind_assoc Run.halted f g = refl
bind_assoc Run.fault f g = refl
bind_assoc Run.out_of_fuel f g = refl

module _ {ℓ} {S : Type ℓ} (emit : (c : ℕ) → S → Run S) where
  pub puts-append : (a b : List ℕ) (s : S) → puts emit (a ++ b) s ≡ (puts emit a s >>= puts emit b)
  unfolding puts
  puts-append [] b s = refl
  puts-append (c ∷ a) b s =
      (λ i. emit c s >>= λ t. puts-append a b t i)
      ∙ sym (bind_assoc (emit c s) (puts emit a) (puts emit b))

  module _ (conversion : (c : ℕ) → List Arg → S → Run (List Arg × S)) where
    format_loop-head :
        (c d : ℕ) (str : List ℕ) (args : List Arg) (s : S)
        → (c == 37) ≡ false
        → format_loop emit conversion (c ∷ d ∷ str) args s
          ≡ (emit c s >>= format_loop emit conversion (d ∷ str) args)
    unfolding format_loop
    format_loop-head c d str args s here =
        ap
          (λ b.
            if b
            then (conversion d args s >>= λ (args, s). format_loop emit conversion str args s)
            else (emit c s >>= format_loop emit conversion (d ∷ str) args))
          here

    pub format_loop-plain :
        (str : List ℕ) (args : List Arg) (s : S)
        → IsPlain str
        → format_loop emit conversion str args s ≡ puts emit str s
    unfolding format_loop puts
    format_loop-plain [] args s plain = refl
    format_loop-plain (c ∷ []) args s (here, rest) =
        ap (λ b. if b then (emit 0 s >>= λ s. Run.fault) else emit c s) here
        ∙ sym (Run-right (emit c s))
    format_loop-plain (c ∷ d ∷ str) args s (here, rest) =
        format_loop-head c d str args s here
        ∙ (λ i. emit c s >>= λ t. format_loop-plain (d ∷ str) args t rest i)

    after : (d : ℕ) (post : List ℕ) → List Arg → S → Run S
    after d post args s =
        conversion d args s >>= λ (args, s). format_loop emit conversion post args s

    -- A format up to its first `%` is put as it is, then the conversion has its turn.
    pub format_loop-conversion :
        (pre : List ℕ) (d : ℕ) (post : List ℕ) (args : List Arg) (s : S)
        → IsPlain pre
        → format_loop emit conversion (pre ++ (37 ∷ d ∷ post)) args s ≡ (
            puts emit pre s >>= λ s.
            conversion d args s >>= λ (args, s). format_loop emit conversion post args s)
    unfolding format_loop puts after
    format_loop-conversion [] d post args s plain = refl
    format_loop-conversion (c ∷ []) d post args s (here, rest) =
        format_loop-head c 37 (d ∷ post) args s here
        ∙ sym (bind_assoc (emit c s) (λ t. ok t) (after d post args))
    format_loop-conversion (c ∷ c' ∷ pre) d post args s (here, rest) =
        format_loop-head c c' (pre ++ (37 ∷ d ∷ post)) args s here
        ∙ (λ i. emit c s >>= λ t. format_loop-conversion (c' ∷ pre) d post args t rest i)
        ∙ sym (bind_assoc (emit c s) (puts emit (c' ∷ pre)) (after d post args))

number_part :
    (k n : ℕ) (post : List ℕ)
    → n < 10 ^ 9
    → IsPlain post
    → ((s : Console) → putint put_screen (pos n) s ≡ puts put_screen (decimal k n) s)
    → (t : Console)
    → (printf_case 117 (word n ∷ []) t >>= λ (args, u).
        format_loop put_screen printf_case post args u)
      ≡ puts put_screen (decimal k n ++ post) t
number_part k n post small plain prints t =
    let int : to_int n ≡ pos n = ground arith in
    bind_assoc (putint put_screen (to_int n) t) (λ u. ok ([], u))
      (λ (args, u). format_loop put_screen printf_case post args u)
    ∙ ap (λ z. putint put_screen z t >>= λ u. format_loop put_screen printf_case post [] u) int
    ∙ ap (λ r. r >>= λ u. format_loop put_screen printf_case post [] u) (prints t)
    ∙ (λ i. puts put_screen (decimal k n) t >>= λ u.
        format_loop-plain put_screen printf_case post [] u plain i)
    ∙ sym (puts-append put_screen (decimal k n) post t)

-- `printf` of a format with one `%u` between texts without `%`, for a number from 1 to
-- `10 ^ 9 - 1`: the screen gets the format with the decimal text of the number, without leading
-- zeros, in that place.
pub printf-number :
    (pre post : List ℕ) (n : ℕ) (s : Console)
    → IsPlain pre
    → IsPlain post
    → 0 < n
    → n < 10 ^ 9
    → (k : ℕ) × (printf (pre ++ (37 ∷ 117 ∷ post)) (word n ∷ []) s
        ≡ puts put_screen (pre ++ (decimal k n ++ post)) s)
      × (decimal_from 0 (decimal k n) ≡ n)
      × HasDigits k n
unfolding printf
printf-number pre post n s plain_pre plain_post some small =
    let (k, prints, all, value, digits) = putint-decimal put_screen n some small in
    (
      k,
      format_loop-conversion put_screen printf_case pre 117 post (word n ∷ []) s plain_pre
          ∙ (λ i. puts put_screen pre s >>= λ t. number_part k n post small plain_post prints t i)
          ∙ sym (puts-append put_screen pre (decimal k n ++ post) s),
      value,
      digits,
    )

-- From a cursor on the screen, any text is put without an error, the cursor stays on the screen, and
-- no cell outside of the screen is written.
pub puts-OnScreen :
    (text : List ℕ) (s : Console)
    → OnScreen s
    → (t : Console) × (puts put_screen text s ≡ ok t) × OnScreen t × Framed s t
unfolding puts
puts-OnScreen [] s on = (s, refl, on, λ i h. refl)
puts-OnScreen (c ∷ text) s on =
    let (on', out) = putch-OnScreen (u8 c) s on in
    let (t, runs, on'', out') = puts-OnScreen text (putch (u8 c) s) on' in
    (t, runs, on'', λ i h. out' i h ∙ out i h)
