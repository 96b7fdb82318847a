-- ===== src/Strings/Split.antt =====
-- What `explode` gives: parts without the delimiter, which joined by it are the string again.
use cachelib_archive.Base.{
  ℕ, zero, suc, ◌-◌, ◌<◌, ◌≡◌, refl, ap, Bool, false, ◌||◌, List, [], ◌∷◌, ◌++◌, ◌==◌, length,
  arith,
}
use cachelib_archive.Strings.{count_parts, scan, explode_loop, explode}

unfoldable pub has : List ℕ → ℕ → Bool
has [] c = false
has (x ∷ s) c = x == c || has s c

unfoldable pub any_has : List (List ℕ) → ℕ → Bool
any_has [] c = false
any_has (p ∷ ps) c = has p c || any_has ps c

unfoldable pub join : List (List ℕ) → ℕ → List ℕ
join [] c = []
join (p ∷ []) c = p
join (p ∷ q ∷ ps) c = p ++ c ∷ join (q ∷ ps) c

scan-has : (s : List ℕ) (c : ℕ) → has (scan s c).0 c ≡ false
unfolding scan has
scan-has [] c = refl
scan-has (x ∷ s) c = ground (arith, scan-has s c)

count_pos : (s : List ℕ) (c : ℕ) → 0 < count_parts s c
unfolding count_parts
count_pos [] c = omega arith
count_pos (x ∷ s) c = ground (arith, count_pos s c)

scan_whole : (s : List ℕ) (c : ℕ) → count_parts s c ≡ 1 → (scan s c).0 ≡ s
unfolding scan count_parts
scan_whole [] c h = refl
scan_whole (x ∷ s) c h = ground (arith, count_pos s c, scan_whole s c)

scan_part :
    (s : List ℕ) (c n : ℕ)
    → count_parts s c ≡ suc (suc n)
    → (s ≡ (scan s c).0 ++ c ∷ (scan s c).1) × (count_parts (scan s c).1 c ≡ suc n)
unfolding scan count_parts
scan_part [] c n h = absurd (omega arith)
scan_part (x ∷ s) c n h = ground (arith, scan_part s c n, count_pos s c)

explode_loop-join :
    (n : ℕ) (s : List ℕ) (c : ℕ) → count_parts s c ≡ suc n → join (explode_loop (suc n) s c) c ≡ s
unfolding explode_loop join
explode_loop-join zero s c h = scan_whole s c h
explode_loop-join (suc n) s c h =
    let e = scan_part s c n h in let ih = explode_loop-join n (scan s c).1 c e.1 in ground arith

explode_loop-has : (n : ℕ) (s : List ℕ) (c : ℕ) → any_has (explode_loop n s c) c ≡ false
unfolding explode_loop any_has
explode_loop-has zero s c = refl
explode_loop-has (suc n) s c = ground (arith, scan-has s c, explode_loop-has n (scan s c).1 c)

length-explode_loop : (n : ℕ) (s : List ℕ) (c : ℕ) → length (explode_loop n s c) ≡ n
unfolding explode_loop
length-explode_loop zero s c = refl
length-explode_loop (suc n) s c = ap suc (length-explode_loop n (scan s c).1 c)

count_succ : (s : List ℕ) (c : ℕ) → (n : ℕ) × (count_parts s c ≡ suc n)
count_succ s c = let h = count_pos s c in (count_parts s c - 1, omega arith)

-- `explode` gives one part more than the string has delimiters; no part has the delimiter in it, and
-- joined by the delimiter the parts are the string again.
pub join-explode :
    (s : List ℕ) (delim : ℕ)
    → (length (explode s delim) ≡ count_parts s delim)
      × (any_has (explode s delim) delim ≡ false)
      × (join (explode s delim) delim ≡ s)
unfolding explode
join-explode s delim = (
  length-explode_loop _ s delim,
  explode_loop-has _ s delim,
  let (n, e) = count_succ s delim in let whole = explode_loop-join n s delim e in rw e whole,
)
