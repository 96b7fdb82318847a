-- ===== src/Backend/Numbers.antt =====
-- The decimal digits that `std::to_string` gives are a key that tmdb can keep.
use cachelib_archive.Base.{
  ◌∙◌, sym, ap, ap₂, ℕ, zero, suc, ◌+◌, ◌-◌, ◌*◌, ◌/◌, ◌%◌, ◌<◌, ◌≤◌, ◌≡◌, refl, true, false, List,
  [], ◌∷◌, ◌++◌, length, get_or, ltb, arith, inl, inr, Bool-cases, length-append,
}
use cachelib_archive.CString.{is_space}
use cachelib_archive.CString.Laws.{IsText}
use cachelib_archive.Tmdb.Records.{IsKey}
use cachelib_archive.Backend.{to_string, digits_of}

-- Ten to the power of `k`.
unfoldable pub ten_to : ℕ → ℕ
ten_to zero = 1
ten_to (suc k) = 10 * ten_to k

abbrev pub IsDigits : List ℕ → Type 0
IsDigits [] = Unit {0}
IsDigits (c ∷ s) = (48 ≤ c) × (c ≤ 57) × IsDigits s

IsDigits-append : (s : List ℕ) (c : ℕ) → IsDigits s → 48 ≤ c → c ≤ 57 → IsDigits (s ++ c ∷ [])
IsDigits-append [] c h a b = (a, b, tt)
IsDigits-append (x ∷ s) c (p, q, r) a b = (p, q, IsDigits-append s c r a b)

pub IsDigits-IsText : (s : List ℕ) → IsDigits s → IsText s
IsDigits-IsText [] h = tt
IsDigits-IsText (c ∷ s) (p, q, r) = ((omega arith), IsDigits-IsText s r)

get_or-back : (s : List ℕ) (c : ℕ) → get_or (s ++ c ∷ []) (length s) 0 ≡ c
get_or-back [] c = refl
get_or-back (x ∷ s) c = get_or-back s c

get_or-last : (s : List ℕ) (c : ℕ) → get_or (s ++ c ∷ []) (length (s ++ c ∷ []) - 1) 0 ≡ c
get_or-last s c =
    let e : length (s ++ c ∷ []) - 1 ≡ length s = omega (arith, length-append s (c ∷ [])) in
    rw e (get_or-back s c)

digits_small : (fuel n : ℕ) → ltb n 10 ≡ true → digits_of (suc fuel) n ≡ (48 + n) ∷ []
unfolding digits_of
digits_small fuel n e = ground arith

digits_large :
    (fuel n : ℕ)
    → ltb n 10 ≡ false
    → digits_of (suc fuel) n ≡ digits_of fuel (n / 10) ++ (48 + n % 10) ∷ []
unfolding digits_of
digits_large fuel n e = ground arith

pub digits_of-IsDigits : (fuel n : ℕ) → IsDigits (digits_of fuel n)
unfolding digits_of
digits_of-IsDigits zero n = tt
digits_of-IsDigits (suc fuel) n = elim (Bool-cases (ltb n 10)) [
  | inl e ↦ rw (digits_small fuel n e) ((omega arith), (ground arith), tt)
  | inr e ↦ rw (digits_large fuel n e) (
      IsDigits-append (digits_of fuel (n / 10)) (48 + n % 10) (digits_of-IsDigits fuel (n / 10))
        (omega arith) (omega arith))
]

-- A number below ten to the power of `k` has at most `k` digits.
length-digits_of : (k fuel n : ℕ) → n < ten_to (suc k) → length (digits_of fuel n) ≤ suc k
unfolding digits_of ten_to
length-digits_of k zero n h = omega arith
length-digits_of zero (suc fuel) n h =
    let e : ltb n 10 ≡ true = ground arith in rw (digits_small fuel n e) (omega arith)
length-digits_of (suc k) (suc fuel) n h = elim (Bool-cases (ltb n 10)) [
  | inl e ↦ rw (digits_small fuel n e) (omega arith)
  | inr e ↦
      let ih = length-digits_of k fuel (n / 10) (omega arith) in
      rw (digits_large fuel n e)
        (omega (arith, ih, length-append (digits_of fuel (n / 10)) ((48 + n % 10) ∷ [])))
]

digits_of-last :
    (fuel n : ℕ)
    → is_space (get_or (digits_of (suc fuel) n) (length (digits_of (suc fuel) n) - 1) 0) ≡ false
unfolding is_space
digits_of-last fuel n = elim (Bool-cases (ltb n 10)) [
  | inl e ↦ rw (digits_small fuel n e) (ground arith)
  | inr e ↦
      rw (digits_large fuel n e)
        (let l = get_or-last (digits_of fuel (n / 10)) (48 + n % 10) in rw l (ground arith))
]

pub digits_of-some : (fuel n : ℕ) → 0 < length (digits_of (suc fuel) n)
digits_of-some fuel n = elim (Bool-cases (ltb n 10)) [
  | inl e ↦ rw (digits_small fuel n e) (omega arith)
  | inr e ↦
      rw (digits_large fuel n e)
        (omega (arith, length-append (digits_of fuel (n / 10)) ((48 + n % 10) ∷ [])))
]

-- A number that an `int` can hold.
pub to_string-IsKey : (n : ℕ) → n < 2147483648 → IsKey (to_string n)
unfolding to_string
to_string-IsKey n h = record {
  some_byte = digits_of-some n n;
  fits = let short = length-digits_of 9 (suc n) n (unfold ten_to in omega arith) in omega arith;
  text = IsDigits-IsText (digits_of (suc n) n) (digits_of-IsDigits (suc n) n);
  trimmed = digits_of-last n n;
}

-- The number that digits stand for.
unfoldable pub value_of : ℕ → List ℕ → ℕ
value_of acc [] = acc
value_of acc (c ∷ s) = value_of (acc * 10 + (c - 48)) s

value_of-append :
    (acc : ℕ) (s : List ℕ) (c : ℕ) → value_of acc (s ++ c ∷ []) ≡ value_of acc s * 10 + (c - 48)
unfolding value_of
value_of-append acc [] c = refl
value_of-append acc (x ∷ s) c = value_of-append (acc * 10 + (x - 48)) s c

pub value_of-digits_of : (fuel n : ℕ) → n < fuel → value_of 0 (digits_of fuel n) ≡ n
value_of-digits_of zero n h = absurd (omega arith)
value_of-digits_of (suc fuel) n h = elim (Bool-cases (ltb n 10)) [
  | inl e ↦ rw (digits_small fuel n e) (unfold value_of in omega arith)
  | inr e ↦
      let large : 10 ≤ n = ground arith in
      let ih = value_of-digits_of fuel (n / 10) (omega arith) in
      rw (digits_large fuel n e)
        (omega (arith, ih, value_of-append 0 (digits_of fuel (n / 10)) (48 + n % 10)))
]

-- Behind digits the separator is found.
digits_cancel : (a b x y : List ℕ) → IsDigits a → IsDigits b → a ++ b'_' ∷ x ≡ b ++ b'_' ∷ y → a ≡ b
digits_cancel [] [] x y p q e = refl
digits_cancel [] (d ∷ b) x y p q e = absurd (ground arith)
digits_cancel (c ∷ a) [] x y p q e = absurd (ground arith)
digits_cancel (c ∷ a) (d ∷ b) x y (_, _, p) (_, _, q) e =
    let first : c ≡ d = ground arith in
    let rest : a ++ b'_' ∷ x ≡ b ++ b'_' ∷ y = ground arith in
    ap₂ ◌∷◌ first (digits_cancel a b x y p q rest)

-- Two numbers with the same text before a separator are the same.
pub to_string-cancel :
    (n m : ℕ) (x y : List ℕ) → to_string n ++ b'_' ∷ x ≡ to_string m ++ b'_' ∷ y → n ≡ m
unfolding to_string
to_string-cancel n m x y e =
    let same =
      digits_cancel (digits_of (suc n) n) (digits_of (suc m) m) x y (digits_of-IsDigits (suc n) n)
        (digits_of-IsDigits (suc m) m) e in
    sym (value_of-digits_of (suc n) n (omega arith))
    ∙ ap (value_of 0) same
    ∙ value_of-digits_of (suc m) m (omega arith)

pub to_string-inj : (n m : ℕ) → to_string n ≡ to_string m → n ≡ m
to_string-inj n m e = to_string-cancel n m [] [] (ap (λ s. s ++ b'_' ∷ []) e)
