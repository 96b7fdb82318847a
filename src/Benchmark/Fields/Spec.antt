-- ===== src/Benchmark/Fields/Spec.antt =====
-- What `randomFastString` gives at each place.
use Prim.Native.Nat.{bit_or}
use cachelib_archive.Base.{
  ℕ, zero, suc, ◌+◌, ◌-◌, ◌*◌, ◌/◌, ◌%◌, ◌<◌, ◌≤◌, ◌≡◌, ◌⊎◌, ◌∙◌, inl, inr, refl, List, [], ◌∷◌,
  length, get_or, set, replicate, All, arith, length-set, length-replicate,
}
use cachelib_archive.CString.Laws.{IsText}
use cachelib_archive.Benchmark.Fields.{
  char_symbols, char_symbols_length, fast_masks, symbol, mask_loop, round_loop, rest_loop,
  random_fast_string,
}
use cachelib_archive.Base.{
  get_elem?, get_elem?-set_self, get_elem?-set_ne, some, ltb, if◌then◌else◌, Bool-cases, ap,
}

-- A digit or a letter.
abbrev pub IsSymbol : ℕ → Type 0
IsSymbol c = ((48 ≤ c) × (c ≤ 57)) ⊎ (((65 ≤ c) × (c ≤ 90)) ⊎ ((97 ≤ c) × (c ≤ 122)))

symbols-All : All IsSymbol char_symbols
symbols-All = omega arith

get_or-IsSymbol : (xs : List ℕ) (i : ℕ) → All IsSymbol xs → i < length xs → IsSymbol (get_or xs i 0)
get_or-IsSymbol [] i h l = absurd (omega arith)
get_or-IsSymbol (x ∷ xs) zero (p, h) l = p
get_or-IsSymbol (x ∷ xs) (suc i) (p, h) l = get_or-IsSymbol xs i h (omega arith)

symbol-IsSymbol : (n : ℕ) → IsSymbol (symbol n)
unfolding symbol
symbol-IsSymbol n = get_or-IsSymbol char_symbols (n % char_symbols_length) symbols-All (omega arith)

length-mask_loop :
    (masks : List ℕ) (rand : ℕ) (result : List ℕ) (i : ℕ)
    → length (mask_loop masks rand result i) ≡ length result
unfolding mask_loop
length-mask_loop [] rand result i = refl
length-mask_loop (mask ∷ masks) rand result i =
    length-mask_loop masks rand _ (i + 1) ∙ length-set result i _

length-round_loop :
    (rounds : ℕ) (rng : ℕ → ℕ) (ctr : ℕ) (result : List ℕ) (i : ℕ)
    → length (round_loop rounds rng ctr result i) ≡ length result
unfolding round_loop
length-round_loop zero rng ctr result i = refl
length-round_loop (suc rounds) rng ctr result i =
    length-round_loop rounds rng (ctr + 1) _ (i + 10) ∙ length-mask_loop fast_masks _ result i

length-rest_loop :
    (left : ℕ) (rng : ℕ → ℕ) (ctr : ℕ) (result : List ℕ) (i : ℕ)
    → length (rest_loop left rng ctr result i) ≡ length result
unfolding rest_loop
length-rest_loop zero rng ctr result i = refl
length-rest_loop (suc left) rng ctr result i =
    length-rest_loop left rng (ctr + 1) _ (i + 1) ∙ length-set result i _

mask_loop_outside :
    (masks : List ℕ) (rand : ℕ) (result : List ℕ) (i j : ℕ)
    → (j < i) ⊎ (i + length masks ≤ j)
    → get_elem? (mask_loop masks rand result i) j ≡ get_elem? result j
unfolding mask_loop
mask_loop_outside [] rand result i j h = refl
mask_loop_outside (mask ∷ masks) rand result i j h =
    mask_loop_outside masks rand _ (i + 1) j (ground arith)
    ∙ get_elem?-set_ne result _ (ground arith)

mask_loop_inside :
    (masks : List ℕ) (rand : ℕ) (result : List ℕ) (i k : ℕ)
    → k < length masks
    → i + length masks ≤ length result
    → get_elem? (mask_loop masks rand result i) (i + k)
      ≡ some (symbol (bit_or rand (get_or masks k 0)))
unfolding mask_loop
mask_loop_inside [] rand result i k h l = absurd (omega arith)
mask_loop_inside (mask ∷ masks) rand result i zero h l =
    let at : i + 0 ≡ i = omega arith in
    ap (get_elem? (mask_loop (mask ∷ masks) rand result i)) at
    ∙ mask_loop_outside masks rand _ (i + 1) i (inl (omega arith))
    ∙ get_elem?-set_self result i _ (omega arith)
mask_loop_inside (mask ∷ masks) rand result i (suc k) h l =
    let at : i + suc k ≡ i + 1 + k = omega arith in
    let v = symbol (bit_or rand mask) in
    ap (get_elem? (mask_loop (mask ∷ masks) rand result i)) at
    ∙ mask_loop_inside masks rand (set result i v) (i + 1) k (omega arith)
        (omega (arith, length-set result i v))

round_loop_outside :
    (rounds : ℕ) (rng : ℕ → ℕ) (ctr : ℕ) (result : List ℕ) (i j : ℕ)
    → j < i
    → get_elem? (round_loop rounds rng ctr result i) j ≡ get_elem? result j
unfolding round_loop
round_loop_outside zero rng ctr result i j h = refl
round_loop_outside (suc rounds) rng ctr result i j h =
    round_loop_outside rounds rng (ctr + 1) _ (i + 10) j (omega arith)
    ∙ mask_loop_outside fast_masks (rng ctr % 10000) result i j (inl h)

-- The symbol that round `ctr` gives for its mask `k`.
unfoldable pub masked : (ℕ → ℕ) → ℕ → ℕ → ℕ
masked rng ctr k = symbol (bit_or (rng ctr % 10000) (get_or fast_masks k 0))

round_loop_inside :
    (rounds : ℕ) (rng : ℕ → ℕ) (ctr : ℕ) (result : List ℕ) (i n k : ℕ)
    → n < rounds
    → k < 10
    → i + 10 * rounds ≤ length result
    → get_elem? (round_loop rounds rng ctr result i) (i + 10 * n + k)
      ≡ some (masked rng (ctr + n) k)
unfolding round_loop masked
round_loop_inside zero rng ctr result i n k h m l = absurd (omega arith)
round_loop_inside (suc rounds) rng ctr result i zero k h m l =
    let at : i + 10 * 0 + k ≡ i + k = omega arith in
    let first : ctr ≡ ctr + 0 = omega arith in
    ap (get_elem? (round_loop (suc rounds) rng ctr result i)) at
    ∙ round_loop_outside rounds rng (ctr + 1) _ (i + 10) (i + k) (omega arith)
    ∙ mask_loop_inside fast_masks (rng ctr % 10000) result i k m (omega arith)
    ∙ ap (λ c. some (symbol (bit_or (rng c % 10000) (get_or fast_masks k 0)))) first
round_loop_inside (suc rounds) rng ctr result i (suc n) k h m l =
    let next = mask_loop fast_masks (rng ctr % 10000) result i in
    let at : i + 10 * suc n + k ≡ i + 10 + 10 * n + k = omega arith in
    let later : ctr + 1 + n ≡ ctr + suc n = omega arith in
    ap (get_elem? (round_loop (suc rounds) rng ctr result i)) at
    ∙ round_loop_inside rounds rng (ctr + 1) next (i + 10) n k (omega arith) m
        (omega (arith, length-mask_loop fast_masks (rng ctr % 10000) result i))
    ∙ ap (λ c. some (symbol (bit_or (rng c % 10000) (get_or fast_masks k 0)))) later

rest_loop_outside :
    (left : ℕ) (rng : ℕ → ℕ) (ctr : ℕ) (result : List ℕ) (i j : ℕ)
    → j < i
    → get_elem? (rest_loop left rng ctr result i) j ≡ get_elem? result j
unfolding rest_loop
rest_loop_outside zero rng ctr result i j h = refl
rest_loop_outside (suc left) rng ctr result i j h =
    rest_loop_outside left rng (ctr + 1) _ (i + 1) j (omega arith)
    ∙ get_elem?-set_ne result _ (omega arith)

rest_loop_inside :
    (left : ℕ) (rng : ℕ → ℕ) (ctr : ℕ) (result : List ℕ) (i n : ℕ)
    → n < left
    → i + left ≤ length result
    → get_elem? (rest_loop left rng ctr result i) (i + n) ≡ some (symbol (rng (ctr + n)))
unfolding rest_loop
rest_loop_inside zero rng ctr result i n h l = absurd (omega arith)
rest_loop_inside (suc left) rng ctr result i zero h l =
    let at : i + 0 ≡ i = omega arith in
    let first : ctr ≡ ctr + 0 = omega arith in
    ap (get_elem? (rest_loop (suc left) rng ctr result i)) at
    ∙ rest_loop_outside left rng (ctr + 1) _ (i + 1) i (omega arith)
    ∙ get_elem?-set_self result i _ (omega arith)
    ∙ ap (λ c. some (symbol (rng c))) first
rest_loop_inside (suc left) rng ctr result i (suc n) h l =
    let at : i + suc n ≡ i + 1 + n = omega arith in
    let later : ctr + 1 + n ≡ ctr + suc n = omega arith in
    let v = symbol (rng ctr) in
    ap (get_elem? (rest_loop (suc left) rng ctr result i)) at
    ∙ rest_loop_inside left rng (ctr + 1) (set result i v) (i + 1) n (omega arith)
        (omega (arith, length-set result i v))
    ∙ ap (λ c. some (symbol (rng c))) later

-- The symbol at a place: of a round of ten, or of the numbers behind the rounds.
unfoldable pub symbol_at : (ℕ → ℕ) → ℕ → ℕ → ℕ
symbol_at rng size j =
    let whole = 10 * (size / 10) in
    if ltb j whole then masked rng (j / 10) (j % 10) else symbol (rng (size / 10 + (j - whole)))

pub length-random_fast_string :
    (rng : ℕ → ℕ) (size : ℕ) → length (random_fast_string rng size) ≡ size
unfolding random_fast_string
length-random_fast_string rng size =
    length-rest_loop (size - 10 * (size / 10)) rng (size / 10) _ (10 * (size / 10))
    ∙ length-round_loop (size / 10) rng 0 (replicate size b'A') 0
    ∙ length-replicate size b'A'

-- The string when the rounds are over.
abbrev rounded : (ℕ → ℕ) → ℕ → List ℕ
rounded rng size = round_loop (size / 10) rng 0 (replicate size b'A') 0

length-rounded : (rng : ℕ → ℕ) (size : ℕ) → length (rounded rng size) ≡ size
length-rounded rng size =
    length-round_loop (size / 10) rng 0 (replicate size b'A') 0 ∙ length-replicate size b'A'

random_fast_string_whole :
    (rng : ℕ → ℕ) (size j : ℕ)
    → j < 10 * (size / 10)
    → get_elem? (random_fast_string rng size) j ≡ some (masked rng (j / 10) (j % 10))
unfolding random_fast_string
random_fast_string_whole rng size j h =
    let at : j ≡ 0 + 10 * (j / 10) + j % 10 = omega arith in
    rest_loop_outside (size - 10 * (size / 10)) rng (size / 10) (rounded rng size)
      (10 * (size / 10)) j h
    ∙ ap (get_elem? (rounded rng size)) at
    ∙ round_loop_inside (size / 10) rng 0 (replicate size b'A') 0 (j / 10) (j % 10) (omega arith)
        (omega arith) (omega (arith, length-replicate {0} {A = ℕ} size b'A'))
    ∙ ap (λ c. some (masked rng c (j % 10))) (let e : 0 + j / 10 ≡ j / 10 = omega arith in e)

random_fast_string_rest :
    (rng : ℕ → ℕ) (size j : ℕ)
    → 10 * (size / 10) ≤ j
    → j < size
    → get_elem? (random_fast_string rng size) j
      ≡ some (symbol (rng (size / 10 + (j - 10 * (size / 10)))))
unfolding random_fast_string
random_fast_string_rest rng size j h l =
    let at : j ≡ 10 * (size / 10) + (j - 10 * (size / 10)) = omega arith in
    ap (get_elem? (random_fast_string rng size)) at
    ∙ rest_loop_inside (size - 10 * (size / 10)) rng (size / 10) (rounded rng size)
        (10 * (size / 10)) (j - 10 * (size / 10)) (omega arith)
        (omega (arith, length-rounded rng size))

random_fast_string-at :
    (rng : ℕ → ℕ) (size j : ℕ)
    → j < size
    → get_elem? (random_fast_string rng size) j ≡ some (symbol_at rng size j)
unfolding symbol_at
random_fast_string-at rng size j l = elim (Bool-cases (ltb j (10 * (size / 10)))) [
  | inl e ↦ rw e (random_fast_string_whole rng size j (ground arith))
  | inr e ↦ rw e (random_fast_string_rest rng size j (ground arith) l)
]

symbol_at-IsSymbol : (rng : ℕ → ℕ) (size j : ℕ) → IsSymbol (symbol_at rng size j)
unfolding symbol_at masked
symbol_at-IsSymbol rng size j = elim (Bool-cases (ltb j (10 * (size / 10)))) [
  | inl e ↦ rw e (symbol-IsSymbol _)
  | inr e ↦ rw e (symbol-IsSymbol _)
]

-- `randomFastString` gives a string of the length that is asked for: at each place of a round the
-- symbol of that round's number joined with the place's mask, and behind the rounds that of one
-- number for each place; every one is a digit or a letter.
pub random_fast_string_lem :
    (rng : ℕ → ℕ) (size j : ℕ)
    → j < size
    → (length (random_fast_string rng size) ≡ size)
      × (get_elem? (random_fast_string rng size) j ≡ some (symbol_at rng size j))
      × IsSymbol (symbol_at rng size j)
random_fast_string_lem rng size j l = (
  length-random_fast_string rng size,
  random_fast_string-at rng size j l,
  symbol_at-IsSymbol rng size j,
)

IsText-of_elems :
    (xs : List ℕ)
    → ((j : ℕ) → j < length xs → (c : ℕ) × (get_elem? xs j ≡ some c) × IsSymbol c)
    → IsText xs
IsText-of_elems [] h = tt
IsText-of_elems (x ∷ xs) h =
    let (c, e, s) = h 0 (omega arith) in
    let same : x ≡ c = ground arith in
    ((omega arith), IsText-of_elems xs (λ j l. h (suc j) (omega arith)))

-- No byte of it is NUL.
pub random_fast_string-IsText : (rng : ℕ → ℕ) (size : ℕ) → IsText (random_fast_string rng size)
random_fast_string-IsText rng size =
    let n = length-random_fast_string rng size in
    IsText-of_elems (random_fast_string rng size) (λ j l. (
      symbol_at rng size j,
      random_fast_string-at rng size j (omega (arith, n)),
      symbol_at-IsSymbol rng size j,
    ))
