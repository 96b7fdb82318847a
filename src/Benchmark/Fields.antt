-- ===== src/Benchmark/Fields.antt =====
-- `randomFastString` of backend/src/utils/randstring.h. The numbers of the generator are given, as a
-- function of how many were drawn; a length is below 2^31.
pub mod Spec
use Prim.Native.Nat.{bit_or}
use cachelib_archive.Base.{
  ℕ, zero, suc, ◌+◌, ◌-◌, ◌*◌, ◌/◌, ◌%◌, ◌<◌, ◌≤◌, ◌≡◌, ◌⊎◌, ◌∙◌, inl, inr, refl, sym, List, [],
  ◌∷◌, length, get_or, set, replicate, All, All-weaken, arith, length-set, length-replicate,
}
use cachelib_archive.Base.Text.{codes}
use cachelib_archive.CString.Laws.{IsText}

abbrev pub char_symbols : List ℕ
char_symbols = codes "0123456789ABCDEFGHIJKLMNOPQRSTUVWXYZabcdefghijklmnopqrstuvwxyz"

abbrev pub char_symbols_length : ℕ
char_symbols_length = 62

abbrev pub fast_masks : List ℕ
fast_masks = 1 ∷ 2 ∷ 4 ∷ 8 ∷ 16 ∷ 32 ∷ 64 ∷ 128 ∷ 256 ∷ 512 ∷ []

-- `CHAR_SYMBOLS[n % CHAR_SYMBOLS_LENGTH]`.
unfoldable pub symbol : ℕ → ℕ
symbol n = get_or char_symbols (n % char_symbols_length) 0

-- The loop over the masks: one number gives a symbol for each of them, from index `i` on.
unfoldable pub mask_loop : List ℕ → ℕ → List ℕ → ℕ → List ℕ
mask_loop [] rand result i = result
mask_loop (mask ∷ masks) rand result i =
    mask_loop masks rand (set result i (symbol (bit_or rand mask))) (i + 1)

-- The rounds that give ten symbols each, from the number `ctr` of the generator on.
unfoldable pub round_loop : ℕ → (ℕ → ℕ) → ℕ → List ℕ → ℕ → List ℕ
round_loop zero rng ctr result i = result
round_loop (suc rounds) rng ctr result i =
    round_loop rounds rng (ctr + 1) (mask_loop fast_masks (rng ctr % 10000) result i) (i + 10)

-- The symbols that are left, one number for each.
unfoldable pub rest_loop : ℕ → (ℕ → ℕ) → ℕ → List ℕ → ℕ → List ℕ
rest_loop zero rng ctr result i = result
rest_loop (suc left) rng ctr result i =
    rest_loop left rng (ctr + 1) (set result i (symbol (rng ctr))) (i + 1)

-- A string that starts as `size` letters `A`.
unfoldable pub random_fast_string : (ℕ → ℕ) → ℕ → List ℕ
random_fast_string rng size =
    let rounds = size / 10 in
    rest_loop (size - 10 * rounds) rng rounds (round_loop rounds rng 0 (replicate size b'A') 0)
      (10 * rounds)

-- How many numbers of the generator a string takes.
unfoldable pub drawn : ℕ → ℕ
drawn size = size / 10 + (size - 10 * (size / 10))
