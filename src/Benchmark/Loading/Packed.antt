-- ===== src/Benchmark/Loading/Packed.antt =====
-- The random fields of a record, packed.
use cachelib_archive.Base.{ℕ, zero, suc, ◌*◌, ◌≡◌, length, arith, length-append}
use cachelib_archive.CString.Laws.{IsText, IsText-append}
use cachelib_archive.Backend.{pack_values}
use cachelib_archive.Backend.Packing.{AllSized}
use cachelib_archive.Benchmark.Fields.{random_fast_string, drawn}
use cachelib_archive.Benchmark.Fields.Spec.{length-random_fast_string, random_fast_string-IsText}
use cachelib_archive.Benchmark.Loading.{later, random_fields}

pub random_fields-AllSized :
    (fields size : ℕ) (rng : ℕ → ℕ) → AllSized size (random_fields fields size rng)
unfolding random_fields
random_fields-AllSized zero size rng = tt
random_fields-AllSized (suc fields) size rng = (
  length-random_fast_string rng size,
  random_fields-AllSized fields size (later rng (drawn size)),
)

-- The packed fields of a record.
pub packed_fields :
    (fields size : ℕ) (rng : ℕ → ℕ)
    → IsText (pack_values (random_fields fields size rng))
      × (length (pack_values (random_fields fields size rng)) ≡ fields * size)
unfolding random_fields pack_values
packed_fields zero size rng = (tt, omega arith)
packed_fields (suc fields) size rng =
    let rest = random_fields fields size (later rng (drawn size)) in
    let (text, len) = packed_fields fields size (later rng (drawn size)) in
    let one = length-random_fast_string rng size in
    (
      IsText-append (random_fast_string rng size) (pack_values rest)
          (random_fast_string-IsText rng size) text,
      omega (arith, len, one, length-append (random_fast_string rng size) (pack_values rest)),
    )
