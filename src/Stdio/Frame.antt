-- ===== src/Stdio/Frame.antt =====
-- What a write leaves alone, and what is read back.
use cachelib_archive.Base.{
  ℕ, zero, suc, ◌+◌, ◌≤◌, ◌<◌, ◌≡◌, refl, ap₂, ◌⊎◌, List, [], ◌∷◌, ◌++◌, arith, length, get_or,
}
use cachelib_archive.Stdio.{File, bytes_at, put, write_at}

pub bytes_at-cong :
    (n off : ℕ) (f g : ℕ → ℕ)
    → ((i : ℕ) → off ≤ i → i < off + n → f i ≡ g i)
    → bytes_at f off n ≡ bytes_at g off n
bytes_at-cong zero off f g h = refl
bytes_at-cong (suc n) off f g h =
    ap₂ ◌∷◌ (h off (omega arith) (omega arith))
      (bytes_at-cong n (suc off) f g λ i a b. h i (omega arith) (omega arith))

pub bytes_at-split :
    (m n off : ℕ) (f : ℕ → ℕ) → bytes_at f off (m + n) ≡ bytes_at f off m ++ bytes_at f (off + m) n
bytes_at-split zero n off f =
    let e : 0 + n ≡ n = omega arith in let e' : off + 0 ≡ off = omega arith in rw (e, e')
bytes_at-split (suc m) n off f =
    let e : suc m + n ≡ suc (m + n) = omega arith in
    let e' : off + suc m ≡ suc off + m = omega arith in
    rw (e, e') (ap₂ ◌∷◌ refl (bytes_at-split m n (suc off) f))

pub length-bytes_at : (n off : ℕ) (f : ℕ → ℕ) → length (bytes_at f off n) ≡ n
length-bytes_at zero off f = refl
length-bytes_at (suc n) off f = omega (arith, length-bytes_at n (suc off) f)

put_outside :
    (f : File) (off : ℕ) (bs : List ℕ) (i : ℕ)
    → i < f.size
    → (i < off) ⊎ (off + length bs ≤ i)
    → put f off bs i ≡ f.byte i
unfolding put
put_outside f off bs i h d = ground arith

-- A write elsewhere does not change what lies in the file.
pub write_at-frame :
    (f : File) (off : ℕ) (bs : List ℕ) (a n : ℕ)
    → a + n ≤ f.size
    → (a + n ≤ off) ⊎ (off + length bs ≤ a)
    → bytes_at (write_at f off bs).byte a n ≡ bytes_at f.byte a n
unfolding write_at
write_at-frame f off bs a n h d =
    bytes_at-cong n a _ _ λ i p q. put_outside f off bs i (omega arith) (ground arith)

bytes_at-get_or :
    (g : ℕ → ℕ) (bs : List ℕ) (off : ℕ)
    → ((i : ℕ) → i < length bs → g (off + i) ≡ get_or bs i 0)
    → bytes_at g off (length bs) ≡ bs
bytes_at-get_or g [] off h = refl
bytes_at-get_or g (b ∷ bs) off h =
    ap₂ ◌∷◌ (let e : off + 0 ≡ off = omega arith in rw e at (h 0 (omega arith))) (
      bytes_at-get_or g bs (suc off)
        λ i p. let e : off + suc i ≡ suc off + i = omega arith in rw e at (h (suc i) (omega arith)))

-- What was written is read back.
pub write_at-same :
    (f : File) (off : ℕ) (bs : List ℕ) → bytes_at (write_at f off bs).byte off (length bs) ≡ bs
unfolding write_at put
write_at-same f off bs = bytes_at-get_or _ bs off λ i h. ground arith

-- The size of a file after a write: it never shrinks, stays where the write lies inside, and grows
-- by what is appended.
pub size-le-write_at : (f : File) (off : ℕ) (bs : List ℕ) → f.size ≤ (write_at f off bs).size
unfolding write_at
size-le-write_at f off bs = ground arith

pub size-write_at_inside :
    (f : File) (off : ℕ) (bs : List ℕ)
    → off + length bs ≤ f.size
    → (write_at f off bs).size ≡ f.size
unfolding write_at
size-write_at_inside f off bs h = ground arith

pub size-write_at_end : (f : File) (bs : List ℕ) → (write_at f f.size bs).size ≡ f.size + length bs
unfolding write_at
size-write_at_end f bs = ground arith

pub size-write_at_next :
    (f : File) (off : ℕ) (bs : List ℕ) → f.size ≤ off → (write_at f off bs).size ≡ off + length bs
unfolding write_at
size-write_at_next f off bs h = ground arith
