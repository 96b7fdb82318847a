-- ===== src/Backend/Packing.antt =====
-- What `pack_values` makes of the fields, `unpack_values` takes apart again.
use cachelib_archive.Base.{
  ℕ, zero, suc, ◌<◌, ◌≤◌, ◌≡◌, refl, ◌∙◌, List, [], ◌∷◌, ◌++◌, length, take, drop, arith, true, ltb,
  length-append,
}
use cachelib_archive.CString.Laws.{take-append, drop-append}
use cachelib_archive.Backend.{pack_values, unpack_loop, unpack_values}

-- Every field has that many bytes.
abbrev pub AllSized : ℕ → List (List ℕ) → Type 0
AllSized n [] = Unit {0}
AllSized n (v ∷ vs) = (length v ≡ n) × AllSized n vs

unpack_loop-pack :
    (fuel n : ℕ) (vs : List (List ℕ))
    → 0 < n
    → AllSized n vs
    → length (pack_values vs) ≤ fuel
    → unpack_loop fuel (pack_values vs) n ≡ vs
unfolding unpack_loop pack_values
unpack_loop-pack zero n [] p h l = refl
unpack_loop-pack zero n (v ∷ vs) p h l =
    let e = length-append v (pack_values vs) in let f = h.0 in absurd (omega arith)
unpack_loop-pack (suc fuel) n [] p h l = refl
unpack_loop-pack (suc fuel) n (v ∷ vs) p h l =
    let e = length-append v (pack_values vs) in
    let f = h.0 in
    let t : ltb 0 (length (v ++ pack_values vs)) ≡ true = ground arith in
    let part = take-append n v (pack_values vs) f in
    let left = drop-append n v (pack_values vs) f in
    let ih = unpack_loop-pack fuel n vs p h.1 (omega arith) in
    let one : unpack_loop (suc fuel) (v ++ pack_values vs) n
        ≡ take n (v ++ pack_values vs) ∷ unpack_loop fuel (drop n (v ++ pack_values vs)) n =
      ground arith in
    one ∙ rw part (rw left (rw ih))

-- Fields that all have the same size, other than 0, come back as they were packed.
pub unpack-pack :
    (n : ℕ) (vs : List (List ℕ)) → 0 < n → AllSized n vs → unpack_values (pack_values vs) n ≡ vs
unfolding unpack_values
unpack-pack n vs p h = unpack_loop-pack (length (pack_values vs)) n vs p h (omega arith)
