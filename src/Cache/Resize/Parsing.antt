-- ===== src/Cache/Resize/Parsing.antt =====
-- The text of a configuration, as `executeNewConfig` of clientserver/clientserver/server.cpp reads it
-- and the scheduler writes it: the names of pools on one line, their sizes on the next.
pub mod Roundtrip
use cachelib_archive.Base.{
  ℕ, zero, suc, ◌+◌, ◌-◌, ◌*◌, ◌%◌, ◌^◌, ◌<◌, ◌≡◌, ◌≢◌, refl, sym, ap, ap₂, ◌∙◌, Bool, true, false,
  Option, none, some, List, [], ◌∷◌, ◌++◌, map, All, length, ltb, ◌==◌, if◌then◌else◌, arith,
  append-nil, append_assoc,
}
use cachelib_archive.CString.{is_space}
use cachelib_archive.CString.Numbers.{is_digit, leading, skip_spaces}
use cachelib_archive.Backend.{to_string, digits_of}
use cachelib_archive.Backend.Numbers.{
  IsDigits, digits_of-IsDigits, digits_of-some, value_of, value_of-digits_of,
}

-- `getline`, and what it leaves.
unfoldable pub first_line : List ℕ → List ℕ
first_line [] = []
first_line (c ∷ s) = if c == 10 then [] else c ∷ first_line s

unfoldable pub behind_line : List ℕ → List ℕ
behind_line [] = []
behind_line (c ∷ s) = if c == 10 then s else behind_line s

-- The words that `>>` reads from a line; `word` is the one begun.
unfoldable pub words_from : List ℕ → List ℕ → List (List ℕ)
words_from word [] = if length word == 0 then [] else word ∷ []
words_from word (c ∷ s) =
    if is_space c
    then (if length word == 0 then words_from [] s else word ∷ words_from [] s)
    else words_from (word ++ c ∷ []) s

-- The text behind the digits at its start.
unfoldable pub behind_digits : List ℕ → List ℕ
behind_digits [] = []
behind_digits (c ∷ s) = if is_digit c then behind_digits s else c ∷ s

-- A `size_t` of that sign: a negative number wraps round, one that does not fit fails.
unfoldable pub to_size : Bool → ℕ → Option ℕ
to_size negative n =
    if ltb n (2 ^ 64) then some (if negative then (2 ^ 64 - n) % 2 ^ 64 else n) else none

unfoldable pub size_at : Bool → List ℕ → Option (ℕ × List ℕ)
size_at negative [] = none
size_at negative (c ∷ s) =
    if is_digit c
    then elim (to_size negative (leading 0 (c ∷ s))) [
      | none ↦ none
      | some n ↦ some (n, behind_digits (c ∷ s))
    ]
    else none

unfoldable pub size_sign : List ℕ → Option (ℕ × List ℕ)
size_sign [] = none
size_sign (c ∷ s) =
    if c == 45 then size_at true s else if c == 43 then size_at false s else size_at false (c ∷ s)

-- `>>` into a `size_t`: the number and what is left of the line.
unfoldable pub read_size : List ℕ → Option (ℕ × List ℕ)
read_size s = size_sign (skip_spaces s)

-- The loop over names and sizes, which ends with the first that is missing.
unfoldable pub pair_up : List (List ℕ) → List ℕ → List (List ℕ × ℕ)
pair_up [] s = []
pair_up (name ∷ names) s = elim (read_size s) [
  | none ↦ []
  | some (n, rest) ↦ (name, n) ∷ pair_up names rest
]

unfoldable pub read_config : List ℕ → List (List ℕ × ℕ)
read_config config = pair_up (words_from [] (first_line config)) (first_line (behind_line config))

-- Words with a space between them.
unfoldable pub spaced : List (List ℕ) → List ℕ
spaced [] = []
spaced (w ∷ ws) = 32 ∷ (w ++ spaced ws)

unfoldable pub joined : List (List ℕ) → List ℕ
joined [] = []
joined (w ∷ ws) = w ++ spaced ws

abbrev pub IsWord : List ℕ → Type 0
IsWord w = (0 < length w) × All (λ c. is_space c ≡ false) w

-- The text of a configuration.
abbrev pub config_text : List (List ℕ × ℕ) → List ℕ
config_text config = joined (map (λ p. p.0) config) ++ 10 ∷ joined (map (λ p. to_string p.1) config)
