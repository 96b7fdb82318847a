-- ===== src/Strings/Substr.antt =====
-- `substr` of tmdb/src/tm_util.cpp.
use cachelib_archive.Base.{
  ℕ, zero, suc, ◌+◌, ◌-◌, ◌≤◌, ◌<◌, ◌≡◌, refl, ap, subst, true, Option, none, some, List, [], ◌∷◌,
  ◌++◌, length, leb, append_assoc, get_elem?, sym, ◌∙◌, false, if◌then◌else◌, arith,
}
use cachelib_archive.CString.{cstr}
use cachelib_archive.CString.Laws.{IsText, cstr-text}

-- An `int`.
pub data ℤ : Type 0 where
  pos negsuc : ℕ → ℤ

-- `start_pos` behind the branches: from 1 on it counts from the front, below 0 from the end, and 0
-- is the first byte too. `none` is an index before the string.
unfoldable pub first_index : ℕ → ℤ → Option ℕ
first_index str_len (pos zero) = some 0
first_index str_len (pos (suc i)) = some i
first_index str_len (negsuc k) = if leb (suc k) str_len then some (str_len - suc k) else none

-- A byte written to a buffer; `none` behind its end.
unfoldable pub write : List ℕ → ℕ → ℕ → Option (List ℕ)
write [] j c = none
write (x ∷ buf) zero c = some (c ∷ buf)
write (x ∷ buf) (suc j) c =
    let rest = write buf j c in elim rest [ none ↦ none | some buf' ↦ some (x ∷ buf') ]

-- The loop that copies, with `left` rounds until `end_pos`; `none` if it reads behind the NUL of the
-- string, or writes behind the end of the buffer.
unfoldable pub copy_loop : List ℕ → ℕ → ℕ → ℕ → ℕ → List ℕ → Option (List ℕ)
copy_loop s size zero i j buf = some buf
copy_loop s size (suc left) i j buf = elim (leb j size) [
  | false ↦ some buf
  | true ↦ elim (get_elem? (s ++ 0 ∷ []) i) [
    | none ↦ none
    | some c ↦ elim (write buf j c) [
      | none ↦ none
      | some buf' ↦ copy_loop s size left (i + 1) (j + 1) buf'
    ]
  ]
]

-- The loop, the NUL behind the copy, and what `strcpy` takes of it.
unfoldable pub copied : List ℕ → ℕ → ℕ → List ℕ → Option (List ℕ)
copied s start_pos size buf = elim (copy_loop s size size start_pos 0 buf) [
  | none ↦ none
  | some buf' ↦ elim (write buf' size 0) [ none ↦ none | some done ↦ some (cstr done) ]
]

-- The string that is returned; `none` is undefined behaviour. `buf` is the buffer as it is at
-- first, of one byte more than the length that is passed: of one byte for a length of 0, which
-- becomes what is left of the string.
unfoldable pub substr : List ℕ → ℤ → ℤ → List ℕ → Option (List ℕ)
substr [] start_pos size buf = some []
substr (c ∷ s) start_pos (negsuc k) buf = some []
substr (c ∷ s) (pos i) (pos zero) buf =
    if leb i (length (c ∷ s)) then copied (c ∷ s) (i - 1) (length (c ∷ s) - i) buf else none
substr (c ∷ s) (negsuc k) (pos zero) buf = elim (first_index (length (c ∷ s)) (negsuc k)) [
  | none ↦ none
  | some p ↦ copied (c ∷ s) p (length (c ∷ s) + suc k) buf
]
substr (c ∷ s) start_pos (pos (suc n)) buf = elim (first_index (length (c ∷ s)) start_pos) [
  | none ↦ none
  | some p ↦ copied (c ∷ s) p (suc n) buf
]

-- The index at which a part of a string of `str_len` bytes begins.
abbrev pub Begins : ℕ → ℤ → ℕ → Type 0
Begins str_len (pos zero) p = p ≡ 0
Begins str_len (pos (suc i)) p = p ≡ i
Begins str_len (negsuc k) p = p + suc k ≡ str_len

first_index-Begins :
    (n : ℕ) (start_pos : ℤ) (p : ℕ) → Begins n start_pos p → first_index n start_pos ≡ some p
unfolding first_index
first_index-Begins n (pos zero) p b = rw b refl
first_index-Begins n (pos (suc i)) p b = rw b refl
first_index-Begins n (negsuc k) p b =
    let fits : leb (suc k) n ≡ true = ground arith in
    let e : n - suc k ≡ p = omega arith in rw (fits, e)

get_elem?-middle : (a : List ℕ) (c : ℕ) (b : List ℕ) → get_elem? (a ++ c ∷ b) (length a) ≡ some c
get_elem?-middle [] c b = refl
get_elem?-middle (x ∷ a) c b = get_elem?-middle a c b

write-middle :
    (a : List ℕ) (x : ℕ) (b : List ℕ) (c : ℕ) → write (a ++ x ∷ b) (length a) c ≡ some (a ++ c ∷ b)
unfolding write
write-middle [] x b c = refl
write-middle (y ∷ a) x b c = rw (write-middle a x b c) refl

length-snoc : (a : List ℕ) (c : ℕ) → length (a ++ c ∷ []) ≡ length a + 1
length-snoc [] c = refl
length-snoc (x ∷ a) c = let e = length-snoc a c in omega arith

-- The loop behind one byte more.
behind_byte :
    (s a part done room room' : List ℕ) (size c : ℕ)
    → copy_loop s size
        (length part)
        (length (a ++ c ∷ []))
        (length (done ++ c ∷ []))
        ((done ++ c ∷ []) ++ room)
      ≡ some ((done ++ c ∷ []) ++ (part ++ room'))
    → copy_loop s size (length part) (length a + 1) (length done + 1) (done ++ c ∷ room)
      ≡ some (done ++ c ∷ (part ++ room'))
behind_byte s a part done room room' size c h =
    rw
      (
        length-snoc a c,
        length-snoc done c,
        append_assoc done (c ∷ []) room,
        append_assoc done (c ∷ []) (part ++ room'),
      )
      at h

-- The loop copies a part of the string into the room that is left.
copy_loop-part :
    (s a part b done room : List ℕ) (size : ℕ)
    → s ++ 0 ∷ [] ≡ a ++ (part ++ b)
    → length part ≤ length room
    → length done + length part ≤ size
    → (room' : List ℕ) × (copy_loop s size (length part) (length a) (length done) (done ++ room)
        ≡ some (done ++ (part ++ room')))
      × (length room' + length part ≡ length room)
unfolding copy_loop
copy_loop-part s a [] b done room size e fits small = (room, refl, omega arith)
copy_loop-part s a (c ∷ part) b done [] size e fits small = absurd (omega arith)
copy_loop-part s a (c ∷ part) b done (x ∷ room) size e fits small =
    let inside : leb (length done) size ≡ true = ground arith in
    let read : get_elem? (s ++ 0 ∷ []) (length a) ≡ some c =
      ap (λ t. get_elem? t (length a)) e ∙ get_elem?-middle a c (part ++ b) in
    let behind : s ++ 0 ∷ [] ≡ (a ++ c ∷ []) ++ (part ++ b) =
      e ∙ sym (append_assoc a (c ∷ []) (part ++ b)) in
    let more : length (done ++ c ∷ []) + length part ≤ size =
      rw (length-snoc done c) (omega arith) in
    let (room', ih, n) =
      copy_loop-part s (a ++ c ∷ []) part b (done ++ c ∷ []) room size behind (omega arith) more in
    let ih' = behind_byte s a part done room room' size c ih in
    (room', rw (inside, copy_loop, read, write-middle done x room c) ih', omega arith)

IsText-part : (a part b : List ℕ) → IsText (a ++ (part ++ b)) → IsText part
IsText-part (c ∷ a) part b h = IsText-part a part b h.1
IsText-part [] [] b h = tt
IsText-part [] (c ∷ part) b h = (h.0, IsText-part [] part b h.1)

one_byte : (room : List ℕ) → length room ≡ 1 → (x : ℕ) × (room ≡ x ∷ [])
one_byte [] e = absurd (omega arith)
one_byte (x ∷ []) e = (x, refl)
one_byte (x ∷ y ∷ room) e = absurd (omega arith)

-- The copy, into a buffer of one byte more.
copied-part :
    (a part b buf : List ℕ)
    → IsText (a ++ (part ++ b))
    → length buf ≡ length part + 1
    → copied (a ++ (part ++ b)) (length a) (length part) buf ≡ some part
unfolding copied
copied-part a part b buf h room =
    let s = a ++ (part ++ b) in
    let e : s ++ 0 ∷ [] ≡ a ++ (part ++ (b ++ 0 ∷ [])) =
      append_assoc a (part ++ b) (0 ∷ []) ∙ ap (λ t. a ++ t) (append_assoc part b (0 ∷ [])) in
    let (buf', copies, left) =
      copy_loop-part s a part (b ++ 0 ∷ []) [] buf (length part) e (omega arith) (omega arith) in
    let (x, is) = one_byte buf' (omega arith) in
    let copies' : copy_loop s (length part) (length part) (length a) 0 buf ≡ some (part ++ x ∷ []) =
      subst (λ t. copy_loop s (length part) (length part) (length a) 0 buf ≡ some (part ++ t)) is
        copies in
    rw (copies', copied, write-middle part x [] 0)
      (ap some (cstr-text part [] (IsText-part a part b h)))

substr_at :
    (s : List ℕ) (start_pos : ℤ) (p n : ℕ) (buf part : List ℕ)
    → 0 < length s
    → Begins (length s) start_pos p
    → copied s p (suc n) buf ≡ some part
    → substr s start_pos (pos (suc n)) buf ≡ some part
unfolding substr
substr_at [] start_pos p n buf part some_byte begins copy = absurd (omega arith)
substr_at (c ∷ s) start_pos p n buf part some_byte begins copy =
    rw (first_index-Begins (length (c ∷ s)) start_pos p begins, substr) copy

length-part : (a part b : List ℕ) → length part ≤ length (a ++ (part ++ b))
length-part (c ∷ a) part b = let h = length-part a part b in omega arith
length-part [] [] b = omega arith
length-part [] (c ∷ part) b = let h = length-part [] part b in omega arith

-- In a string without NUL, for a part of it that is not empty, of the length that is passed, at the
-- start that is passed, which counts from 1, or below 0 from the end: `substr` gives that part,
-- whatever its buffer holds at first.
pub substr_lem :
    (a part b buf : List ℕ) (start_pos : ℤ) (n : ℕ)
    → IsText (a ++ (part ++ b))
    → length part ≡ suc n
    → length buf ≡ suc n + 1
    → Begins (length (a ++ (part ++ b))) start_pos (length a)
    → substr (a ++ (part ++ b)) start_pos (pos (suc n)) buf ≡ some part
substr_lem a part b buf start_pos n h size room begins =
    let copy = copied-part a part b buf h (omega arith) in
    let fits = length-part a part b in
    substr_at (a ++ (part ++ b)) start_pos (length a) n buf part (omega arith) begins
      (subst (λ m. copied (a ++ (part ++ b)) (length a) m buf ≡ some part) size copy)
