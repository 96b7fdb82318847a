-- ===== src/CString/Laws.antt =====
-- Laws of C strings.
use cachelib_archive.CString.{cstr, is_space, str_eq, rtrim_loop, rtrim}
use cachelib_archive.Base.{
  ℕ, zero, suc, ◌-◌, ◌<◌, ◌≡◌, refl, ap, ◌↔◌, ◌≢◌, true, false, List, [], ◌∷◌, ◌++◌, arith, length,
  get_or, take, drop, set,
}

-- No byte is the NUL.
abbrev pub IsText : List ℕ → Type 0
IsText [] = Unit {0}
IsText (c ∷ s) = (c ≢ 0) × IsText s

pub str_eq_iff : (s t : List ℕ) → (str_eq s t ≡ true) ↔ (s ≡ t)
unfolding str_eq
str_eq_iff [] [] = ground arith
str_eq_iff [] (b ∷ t) = ground arith
str_eq_iff (a ∷ s) [] = ground arith
str_eq_iff (a ∷ s) (b ∷ t) = ground (arith, str_eq_iff s t)

-- Behind a NUL nothing is read: the byte at the string's end is the one that is set.
pub cstr-set_end :
    (s t r : List ℕ) → IsText s → 0 < length t → cstr (set (s ++ t) (length s) 0 ++ r) ≡ s
unfolding cstr
cstr-set_end [] [] r h l = absurd (omega arith)
cstr-set_end [] (b ∷ t) r h l = refl
cstr-set_end (c ∷ s) t r h l = ground (arith, cstr-set_end s t r h.1 l)

pub cstr-text : (s r : List ℕ) → IsText s → cstr (s ++ 0 ∷ r) ≡ s
unfolding cstr
cstr-text [] r h = refl
cstr-text (c ∷ s) r h = ground (arith, cstr-text s r h.1)

pub cstr_whole : (s : List ℕ) → IsText s → cstr s ≡ s
unfolding cstr
cstr_whole [] h = refl
cstr_whole (c ∷ s) h = ground (arith, cstr_whole s h.1)

pub take-length {ℓ} : {A : Type ℓ} (xs : List A) → take (length xs) xs ≡ xs
take-length [] = refl
take-length (x ∷ xs) = ap (◌∷◌ x) (take-length xs)

-- The last byte is no white space.
abbrev pub IsTrimmed : List ℕ → Type 0
IsTrimmed s = is_space (get_or s (length s - 1) 0) ≡ false

rtrim_loop-trimmed :
    (s : List ℕ) (n : ℕ) → is_space (get_or s (n - 1) 0) ≡ false → rtrim_loop s n ≡ n
unfolding rtrim_loop
rtrim_loop-trimmed s zero h = refl
rtrim_loop-trimmed s (suc p) h = let e : suc p - 1 ≡ p = omega arith in rw (rw e at h)

pub rtrim-trimmed : (s : List ℕ) → IsTrimmed s → rtrim s ≡ s
unfolding rtrim
rtrim-trimmed s h = rw (rtrim_loop-trimmed s (length s) h) (take-length s)

module _ {ℓ} {A : Type ℓ} where
  pub drop-append : (n : ℕ) (xs ys : List A) → length xs ≡ n → drop n (xs ++ ys) ≡ ys
  drop-append zero [] ys h = refl
  drop-append zero (x ∷ xs) ys h = absurd (omega arith)
  drop-append (suc n) [] ys h = absurd (omega arith)
  drop-append (suc n) (x ∷ xs) ys h = drop-append n xs ys (omega arith)

  pub take-append : (n : ℕ) (xs ys : List A) → length xs ≡ n → take n (xs ++ ys) ≡ xs
  take-append zero [] ys h = refl
  take-append zero (x ∷ xs) ys h = absurd (omega arith)
  take-append (suc n) [] ys h = absurd (omega arith)
  take-append (suc n) (x ∷ xs) ys h = ap (◌∷◌ x) (take-append n xs ys (omega arith))

  pub drop-set_lt : (n i : ℕ) (xs : List A) (v : A) → i < n → drop n (set xs i v) ≡ drop n xs
  drop-set_lt zero i xs v h = absurd (omega arith)
  drop-set_lt (suc n) i [] v h = refl
  drop-set_lt (suc n) zero (x ∷ xs) v h = refl
  drop-set_lt (suc n) (suc i) (x ∷ xs) v h = drop-set_lt n i xs v (omega arith)

pub IsText-append : (s t : List ℕ) → IsText s → IsText t → IsText (s ++ t)
IsText-append [] t h g = g
IsText-append (c ∷ s) t (p, h) g = (p, IsText-append s t h g)
