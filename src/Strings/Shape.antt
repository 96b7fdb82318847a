-- ===== src/Strings/Shape.antt =====
-- What `trim`, `ltrim`, `strtolower` and `str_pad` leave of a string.
use cachelib_archive.Base.{
  ℕ, zero, suc, ◌-◌, ◌≤◌, ◌≡◌, ◌≢◌, refl, Bool, true, false, ◌&&◌, some, List, [], ◌∷◌, ◌++◌, ◌==◌,
  length, drop, replicate, arith, inl, inr, Bool-cases, length-replicate,
}
use cachelib_archive.CString.{is_space, rtrim_loop, rtrim}
use cachelib_archive.Strings.{trim_loop, trim, ltrim, overwrite, str_pad}

trim_loop-rtrim_loop : (s : List ℕ) (n : ℕ) → trim_loop s n ≡ rtrim_loop s n
unfolding trim_loop rtrim_loop
trim_loop-rtrim_loop s zero = refl
trim_loop-rtrim_loop s (suc n) = ground (arith, trim_loop-rtrim_loop s n)

-- `trim` strips the right side only: it does what `rtrim` does.
pub trim-rtrim : (s : List ℕ) → trim s ≡ rtrim s
unfolding trim rtrim
trim-rtrim s = rw (trim_loop-rtrim_loop s (length s))

unfoldable pub all_space : List ℕ → Bool
all_space [] = true
all_space (c ∷ s) = is_space c && all_space s

unfoldable pub starts_with_space : List ℕ → Bool
starts_with_space [] = false
starts_with_space (c ∷ s) = is_space c

-- `ltrim` strips white space at the left and no more: what is left starts with no white space.
pub append-ltrim :
    (s : List ℕ)
    → (spaces : List ℕ) × (s ≡ spaces ++ ltrim s)
      × (all_space spaces ≡ true)
      × (starts_with_space (ltrim s) ≡ false)
unfolding ltrim all_space starts_with_space
append-ltrim [] = ([], refl, refl, refl)
append-ltrim (c ∷ s) = elim (Bool-cases (is_space c)) [
  | inl e ↦
      let (spaces, p, q, r) = append-ltrim s in
      (c ∷ spaces, (ground arith), (ground arith), (ground arith))
  | inr e ↦ ([], (ground arith), refl, (ground arith))
]

drop-replicate :
    (n m c : ℕ) (r : List ℕ) → n ≤ m → drop n (replicate m c ++ r) ≡ replicate (m - n) c ++ r
drop-replicate zero m c r h = let e : m - 0 ≡ m = omega arith in rw e
drop-replicate (suc n) zero c r h = absurd (omega arith)
drop-replicate (suc n) (suc m) c r h =
    let e : suc m - suc n ≡ m - n = omega arith in rw e (drop-replicate n m c r (omega arith))

-- `str_pad` with a byte other than the NUL fills the first `len` bytes of the buffer, the string
-- first, and leaves those behind them; it writes no NUL.
pub str_pad_lem :
    (s : List ℕ) (len c : ℕ) (to : List ℕ)
    → c ≢ 0
    → length s ≤ len
    → str_pad s len c to ≡ some (s ++ (replicate (len - length s) c ++ drop len to))
unfolding str_pad overwrite
str_pad_lem s len c to nz h =
    let e = drop-replicate (length s) len c (drop len to) h in
    let z : (c == 0) ≡ false = ground arith in rw z (rw (length-replicate len c) (rw e))
