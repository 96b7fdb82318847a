-- ===== src/CString/Numbers.antt =====
-- Numbers in texts: `std::stoi`.
use cachelib_archive.Base.{
  ℕ, ◌+◌, ◌-◌, ◌*◌, ◌%◌, ◌^◌, Bool, true, false, ◌&&◌, Option, none, some, List, [], ◌∷◌, ltb, leb,
  ◌==◌, if◌then◌else◌,
}
use cachelib_archive.CString.{is_space}

unfoldable pub is_digit : ℕ → Bool
is_digit c = leb 48 c && leb c 57

-- The number of the digits at the start of a text, behind those that `acc` counts.
unfoldable pub leading : ℕ → List ℕ → ℕ
unfolding is_digit
leading acc [] = acc
leading acc (c ∷ s) = if is_digit c then leading (acc * 10 + (c - 48)) s else acc

unfoldable pub skip_spaces : List ℕ → List ℕ
skip_spaces [] = []
skip_spaces (c ∷ s) = if is_space c then skip_spaces s else c ∷ s

-- The 32 bits of an `int` of that sign, `none` where it does not fit.
unfoldable pub to_int : Bool → ℕ → Option ℕ
to_int negative n =
    if negative
    then (if leb n (2 ^ 31) then some ((2 ^ 32 - n) % 2 ^ 32) else none)
    else if ltb n (2 ^ 31)
    then some n
    else none

-- Behind the sign a digit is needed.
unfoldable pub stoi_digits : Bool → List ℕ → Option ℕ
unfolding is_digit to_int leading
stoi_digits negative [] = none
stoi_digits negative (c ∷ s) = if is_digit c then to_int negative (leading 0 (c ∷ s)) else none

unfoldable pub stoi_sign : List ℕ → Option ℕ
unfolding stoi_digits
stoi_sign [] = none
stoi_sign (c ∷ s) =
    if c == 45
    then stoi_digits true s
    else if c == 43
    then stoi_digits false s
    else stoi_digits false (c ∷ s)

-- `std::stoi`, as 32 bits. `none` is an exception.
unfoldable pub stoi : List ℕ → Option ℕ
unfolding stoi_sign skip_spaces
stoi s = stoi_sign (skip_spaces s)
