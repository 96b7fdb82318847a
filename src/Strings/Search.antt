-- ===== src/Strings/Search.antt =====
-- What `strpos`, `strrpos` and `is_numeric` find.
use cachelib_archive.Base.{
  ℕ, zero, suc, ◌+◌, ◌<◌, ◌≤◌, drop, ◌≡◌, ◌≢◌, refl, ap, Bool, true, false, ◌&&◌, Option, none,
  some, List, [], ◌∷◌, ◌++◌, ◌==◌, length, get_or, arith, ◌⊎◌, inl, inr, Bool-cases, subst, sym,
}
use cachelib_archive.Strings.{
  strpos_loop, strpos, strrpos_loop, strrpos, is_digit, digits, is_numeric,
}
use cachelib_archive.Strings.Split.{has}

-- The answer of a search: where the byte stands first, or that it stands nowhere.
abbrev pub IsFirst : List ℕ → ℕ → Option ℕ → Type 0
IsFirst s c none = has s c ≡ false
IsFirst s c (some i) =
    (a : List ℕ) × (b : List ℕ) × (s ≡ a ++ c ∷ b) × (length a ≡ i) × (has a c ≡ false)

strpos_loop-cases :
    (s : List ℕ) (c i : ℕ)
    → ((strpos_loop s c i ≡ none) × (has s c ≡ false))
      ⊎ ((a : List ℕ) × (b : List ℕ) × (s ≡ a ++ c ∷ b)
          × (strpos_loop s c i ≡ some (length a + i))
          × (has a c ≡ false))
unfolding strpos_loop has
strpos_loop-cases [] c i = inl (refl, refl)
strpos_loop-cases (x ∷ s) c i = elim (Bool-cases (x == c)) [
  | inl e ↦ inr ([], s, (ground arith), (ground arith), refl)
  | inr e ↦ elim (strpos_loop-cases s c (i + 1)) [
    | inl h ↦ inl ((ground arith), (ground arith))
    | inr (a, b, p, q, r) ↦ inr (x ∷ a, b, ap (◌∷◌ x) p, (ground arith), (ground arith))
  ]
]

-- For a byte other than the NUL, `strpos` gives the index of its first occurrence, or -1 when the
-- string does not have it.
strpos-IsFirst : (s : List ℕ) (c : ℕ) → c ≢ 0 → IsFirst s c (strpos s c)
unfolding strpos
strpos-IsFirst s c nz = elim (strpos_loop-cases s c 0) [
  | inl h ↦ let e : strpos s c ≡ none = ground arith in subst (IsFirst s c) (sym e) h.1
  | inr (a, b, p, q, r) ↦
      let e : strpos s c ≡ some (length a) = ground arith in
      subst (IsFirst s c) (sym e) (a, b, p, refl, r)
]

-- `is_numeric` is 1 when every byte is a digit, so also for the empty string.
unfoldable pub all_digits : List ℕ → Bool
all_digits [] = true
all_digits (c ∷ s) = is_digit c && all_digits s

digits_le : (s : List ℕ) → digits s ≤ length s
unfolding digits
digits_le [] = omega arith
digits_le (c ∷ s) = ground (arith, digits_le s)

pub is_numeric-all : (s : List ℕ) → is_numeric s ≡ all_digits s
unfolding is_numeric digits all_digits
is_numeric-all [] = refl
is_numeric-all (c ∷ s) = ground (arith, is_numeric-all s, digits_le s)

-- The index of the last occurrence: none behind it.
abbrev pub EndsAt : List ℕ → ℕ → Option ℕ → Type 0
EndsAt s c none = has s c ≡ false
EndsAt s c (some i) = (i < length s) × (get_or s i 0 ≡ c) × (has (drop (suc i) s) c ≡ false)

has-drop :
    (s : List ℕ) (c i : ℕ)
    → i < length s
    → has (drop (suc i) s) c ≡ false
    → (get_or s i 0 == c) ≡ false
    → has (drop i s) c ≡ false
unfolding has
has-drop [] c i l h e = absurd (omega arith)
has-drop (x ∷ s) c zero l h e = ground arith
has-drop (x ∷ s) c (suc i) l h e = has-drop s c i (omega arith) h e

strrpos_loop-EndsAt :
    (s : List ℕ) (c n : ℕ)
    → n ≤ length s
    → has (drop n s) c ≡ false
    → EndsAt s c (strrpos_loop s c n)
unfolding strrpos_loop
strrpos_loop-EndsAt s c zero l h = h
strrpos_loop-EndsAt s c (suc i) l h = elim (Bool-cases (get_or s i 0 == c)) [
  | inl e ↦ rw e (omega arith, ground arith, h)
  | inr e ↦ rw e (strrpos_loop-EndsAt s c i (omega arith) (has-drop s c i (omega arith) h e))
]

get_or-end : (s : List ℕ) → get_or s (length s) 0 ≡ 0
get_or-end [] = refl
get_or-end (x ∷ s) = get_or-end s

has-drop_all : (s : List ℕ) (c : ℕ) → has (drop (length s) s) c ≡ false
unfolding has
has-drop_all [] c = refl
has-drop_all (x ∷ s) c = has-drop_all s c

-- For a byte other than the NUL, `strrpos` gives the index of its last occurrence, or -1 when the
-- string does not have it.
strrpos-EndsAt : (s : List ℕ) (c : ℕ) → c ≢ 0 → EndsAt s c (strrpos s c)
unfolding strrpos strrpos_loop
strrpos-EndsAt s c nz =
    let z = get_or-end s in
    let e : strrpos s c ≡ strrpos_loop s c (length s) = ground arith in
    subst (EndsAt s c) (sym e) (strrpos_loop-EndsAt s c (length s) (omega arith) (has-drop_all s c))

-- For a byte other than the NUL, `strpos` gives the index of its first occurrence, with none before
-- it, and `strrpos` that of its last, with none behind it; both give -1 when the string does not
-- have the byte.
pub strpos-strrpos :
    (s : List ℕ) (c : ℕ) → c ≢ 0 → IsFirst s c (strpos s c) × EndsAt s c (strrpos s c)
strpos-strrpos s c nz = (strpos-IsFirst s c nz, strrpos-EndsAt s c nz)
