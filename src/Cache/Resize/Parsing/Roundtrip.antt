-- ===== src/Cache/Resize/Parsing/Roundtrip.antt =====
-- The server reads the configuration that the scheduler writes.
use cachelib_archive.Base.{
  ℕ, suc, ◌+◌, ◌-◌, ◌*◌, ◌^◌, ◌<◌, ◌≡◌, ◌≢◌, refl, sym, ap, ap₂, ◌∙◌, true, false, some, List, [],
  ◌∷◌, ◌++◌, map, All, length, ◌==◌, arith, append-nil, append_assoc,
}
use cachelib_archive.CString.{is_space}
use cachelib_archive.CString.Numbers.{is_digit, leading, skip_spaces}
use cachelib_archive.Backend.{to_string}
use cachelib_archive.Backend.Numbers.{
  IsDigits, digits_of-IsDigits, digits_of-some, value_of, value_of-digits_of,
}
use cachelib_archive.Cache.Resize.Parsing.{
  first_line, behind_line, words_from, behind_digits, to_size, size_at, size_sign, read_size,
  pair_up, read_config, spaced, joined, IsWord, config_text,
}

words_from-append :
    (word w s : List ℕ)
    → All (λ c. is_space c ≡ false) w
    → words_from word (w ++ s) ≡ words_from (word ++ w) s
unfolding words_from
words_from-append word [] s h = ap (λ x. words_from x s) (sym (append-nil word))
words_from-append word (c ∷ w) s (e, h) =
    let one : words_from word (c ∷ (w ++ s)) ≡ words_from (word ++ c ∷ []) (w ++ s) =
      ground arith in
    one
    ∙ words_from-append (word ++ c ∷ []) w s h
    ∙ ap (λ x. words_from x s) (append_assoc word (c ∷ []) w)

words_from-spaced :
    (w : List ℕ) (ws : List (List ℕ)) → IsWord w → All IsWord ws → words_from w (spaced ws) ≡ w ∷ ws
unfolding words_from spaced is_space
words_from-spaced w [] (some_byte, h) all = ground arith
words_from-spaced w (w' ∷ ws) (some_byte, h) ((some_byte', h'), all) =
    let ih = words_from-spaced w' ws (some_byte', h') all in
    let next = words_from-append [] w' (spaced ws) h' in
    let flush : words_from w (32 ∷ (w' ++ spaced ws)) ≡ w ∷ words_from [] (w' ++ spaced ws) =
      ground arith in
    flush ∙ ap (λ x. w ∷ x) (next ∙ ih)

words-joined : (ws : List (List ℕ)) → All IsWord ws → words_from [] (joined ws) ≡ ws
unfolding words_from joined
words-joined [] all = refl
words-joined (w ∷ ws) (h, all) =
    words_from-append [] w (spaced ws) h.1 ∙ words_from-spaced w ws h all

-- No byte ends a line.
abbrev IsLine : List ℕ → Type 0
IsLine s = All (λ c. c ≢ 10) s

lines : (s t : List ℕ) → IsLine s → (first_line (s ++ 10 ∷ t) ≡ s) × (behind_line (s ++ 10 ∷ t) ≡ t)
unfolding first_line behind_line
lines [] t h = (refl, refl)
lines (c ∷ s) t (p, h) = let (e, e') = lines s t h in ((ground (arith, e)), (ground (arith, e')))

last_line : (s : List ℕ) → IsLine s → first_line s ≡ s
unfolding first_line
last_line [] h = refl
last_line (c ∷ s) (p, h) = let e = last_line s h in ground arith

IsLine-append : (s t : List ℕ) → IsLine s → IsLine t → IsLine (s ++ t)
IsLine-append [] t h g = g
IsLine-append (c ∷ s) t (p, h) g = (p, IsLine-append s t h g)

IsWord-IsLine : (w : List ℕ) → All (λ c. is_space c ≡ false) w → IsLine w
unfolding is_space
IsWord-IsLine [] h = tt
IsWord-IsLine (c ∷ w) (e, h) = ((λ ten. ground arith), IsWord-IsLine w h)

IsLine-spaced : (ws : List (List ℕ)) → All IsWord ws → IsLine (spaced ws)
unfolding spaced
IsLine-spaced [] all = tt
IsLine-spaced (w ∷ ws) ((n, h), all) =
    ((omega arith), IsLine-append w (spaced ws) (IsWord-IsLine w h) (IsLine-spaced ws all))

IsLine-joined : (ws : List (List ℕ)) → All IsWord ws → IsLine (joined ws)
unfolding joined
IsLine-joined [] all = tt
IsLine-joined (w ∷ ws) ((n, h), all) =
    IsLine-append w (spaced ws) (IsWord-IsLine w h) (IsLine-spaced ws all)

-- What follows a number goes on with no digit.
abbrev NoDigit : List ℕ → Type 0
NoDigit [] = Unit {0}
NoDigit (c ∷ s) = is_digit c ≡ false

digits_read :
    (acc : ℕ) (d s : List ℕ)
    → IsDigits d
    → NoDigit s
    → (leading acc (d ++ s) ≡ value_of acc d) × (behind_digits (d ++ s) ≡ s)
unfolding leading value_of behind_digits is_digit
digits_read acc [] [] h stop = (refl, refl)
digits_read acc [] (c ∷ s) h stop = ((ground arith), (ground arith))
digits_read acc (c ∷ d) s (p, q, h) stop =
    let (e, e') = digits_read (acc * 10 + (c - 48)) d s h stop in
    ((ground (arith, e)), (ground (arith, e')))

size_of_digits :
    (d s : List ℕ)
    → IsDigits d
    → 0 < length d
    → NoDigit s
    → value_of 0 d < 2 ^ 64
    → read_size (d ++ s) ≡ some (value_of 0 d, s)
unfolding read_size size_sign size_at to_size skip_spaces is_space is_digit
size_of_digits [] s h l stop small = absurd (omega arith)
size_of_digits (c ∷ d) s (p, q, h) l stop small =
    let (value, behind) = digits_read 0 (c ∷ d) s (p, q, h) stop in
    let not_space : is_space c ≡ false = ground arith in
    let minus : (c == 45) ≡ false = ground arith in
    let plus : (c == 43) ≡ false = ground arith in
    let digit : is_digit c ≡ true = ground arith in
    let n = leading 0 (c ∷ (d ++ s)) in
    let fits : to_size false n ≡ some n = ground (arith, value) in
    let skipped : skip_spaces (c ∷ (d ++ s)) ≡ c ∷ (d ++ s) = ground arith in
    let signed : size_sign (c ∷ (d ++ s)) ≡ size_at false (c ∷ (d ++ s)) = ground arith in
    let read : size_at false (c ∷ (d ++ s)) ≡ some (n, behind_digits (c ∷ (d ++ s))) =
      rw (digit, size_at, fits) refl in
    ap size_sign skipped ∙ signed ∙ read ∙ ap₂ (λ a b. some (a, b)) value behind

read_size-to_string :
    (n : ℕ) (s : List ℕ) → n < 2 ^ 64 → NoDigit s → read_size (to_string n ++ s) ≡ some (n, s)
unfolding to_string
read_size-to_string n s small stop =
    let value = value_of-digits_of (suc n) n (omega arith) in
    size_of_digits (to_string n) s (digits_of-IsDigits (suc n) n) (digits_of-some n n) stop
      (omega (arith, value))
    ∙ ap (λ k. some (k, s)) value

read_size-space : (s : List ℕ) → read_size (32 ∷ s) ≡ read_size s
unfolding read_size skip_spaces is_space
read_size-space s = refl

-- The pools with their sizes: a name is a word, and a size fits a `size_t`.
abbrev pub IsPool : List ℕ × ℕ → Type 0
IsPool (name, size) = IsWord name × (size < 2 ^ 64)

abbrev size_texts : List (List ℕ × ℕ) → List (List ℕ)
size_texts config = map (λ p. to_string p.1) config

NoDigit-spaced : (ws : List (List ℕ)) → NoDigit (spaced ws)
unfolding spaced is_digit
NoDigit-spaced [] = tt
NoDigit-spaced (w ∷ ws) = refl

pair_up-spaced :
    (config : List (List ℕ × ℕ))
    → All IsPool config
    → pair_up (map (λ p. p.0) config) (spaced (size_texts config)) ≡ config
unfolding pair_up spaced
pair_up-spaced [] all = refl
pair_up-spaced ((name, size) ∷ config) ((w, small), all) =
    let rest = spaced (size_texts config) in
    let read =
      read_size-space (to_string size ++ rest)
      ∙ read_size-to_string size rest small (NoDigit-spaced (size_texts config)) in
    rw (read, pair_up) (ap (λ x. (name, size) ∷ x) (pair_up-spaced config all))

pair_up-joined :
    (config : List (List ℕ × ℕ))
    → All IsPool config
    → pair_up (map (λ p. p.0) config) (joined (size_texts config)) ≡ config
unfolding pair_up joined
pair_up-joined [] all = refl
pair_up-joined ((name, size) ∷ config) ((w, small), all) =
    let rest = spaced (size_texts config) in
    let read = read_size-to_string size rest small (NoDigit-spaced (size_texts config)) in
    rw (read, pair_up) (ap (λ x. (name, size) ∷ x) (pair_up-spaced config all))

names_words : (config : List (List ℕ × ℕ)) → All IsPool config → All IsWord (map (λ p. p.0) config)
names_words [] all = tt
names_words ((name, size) ∷ config) ((w, small), all) = (w, names_words config all)

IsDigits-IsWord : (d : List ℕ) → IsDigits d → All (λ c. is_space c ≡ false) d
unfolding is_space
IsDigits-IsWord [] h = tt
IsDigits-IsWord (c ∷ d) (p, q, h) = ((ground arith), IsDigits-IsWord d h)

sizes_words : (config : List (List ℕ × ℕ)) → All IsWord (size_texts config)
unfolding to_string
sizes_words [] = tt
sizes_words ((name, size) ∷ config) = (
  (digits_of-some size size, IsDigits-IsWord (to_string size) (digits_of-IsDigits (suc size) size)),
  sizes_words config,
)

-- The configuration that the scheduler writes, pools with names that are words and sizes that fit a
-- `size_t`, is the one that the server reads.
pub read_config-config_text :
    (config : List (List ℕ × ℕ)) → All IsPool config → read_config (config_text config) ≡ config
unfolding read_config
read_config-config_text config all =
    let names = map (λ p. p.0) config in
    let words = names_words config all in
    let (first, behind) =
      lines (joined names) (joined (size_texts config)) (IsLine-joined names words) in
    let last =
      last_line (joined (size_texts config))
        (IsLine-joined (size_texts config) (sizes_words config)) in
    ap₂ (λ a b. pair_up (words_from [] a) (first_line b)) first behind
    ∙ ap₂ pair_up (words-joined names words) last
    ∙ pair_up-joined config all
