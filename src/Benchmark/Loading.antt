-- ===== src/Benchmark/Loading.antt =====
-- The preparation of a database: `YCSBBenchmark::load_database` of
-- backend/src/benchmarks/YCSBBenchmark.cpp, and `Benchmark::prepare`.
pub mod Packed
use cachelib_archive.Base.{ℕ, zero, suc, ◌+◌, Bool, true, false, List, [], ◌∷◌}
use cachelib_archive.Benchmark.{Backend, Benchmark}
use cachelib_archive.Benchmark.Fields.{random_fast_string, drawn}

-- The generator when `n` numbers have been drawn.
abbrev pub later : (ℕ → ℕ) → ℕ → ℕ → ℕ
later rng n i = rng (n + i)

-- The fields of a record, one after the other from one generator.
unfoldable pub random_fields : ℕ → ℕ → (ℕ → ℕ) → List (List ℕ)
random_fields zero size rng = []
random_fields (suc fields) size rng =
    random_fast_string rng size ∷ random_fields fields size (later rng (drawn size))

-- The generator behind a record.
unfoldable pub behind_fields : ℕ → ℕ → (ℕ → ℕ) → ℕ → ℕ
behind_fields zero size rng = rng
behind_fields (suc fields) size rng = behind_fields fields size (later rng (drawn size))

-- The generator, and the fields, of the record that stands `j` behind the first.
unfoldable pub rng_at : ℕ → ℕ → ℕ → (ℕ → ℕ) → ℕ → ℕ
rng_at fields size zero rng = rng
rng_at fields size (suc j) rng = rng_at fields size j (behind_fields fields size rng)

abbrev pub fields_at : ℕ → ℕ → ℕ → (ℕ → ℕ) → List (List ℕ)
fields_at fields size j rng = random_fields fields size (rng_at fields size j rng)

module _ (lib : Backend) (max_fields max_field_size : ℕ) where
  -- The loop over the records, from `i` on. The key is an `int`: the records are fewer than 2 ^ 31.
  unfoldable pub load_loop : ℕ → ℕ → lib.State → (ℕ → ℕ) → Bool × lib.State
  load_loop zero i s rng = (true, s)
  load_loop (suc n) i s rng =
      let r = lib.insert_record s i (random_fields max_fields max_field_size rng) in
      elim r.0 [
        | true ↦ load_loop n (i + 1) r.1 (behind_fields max_fields max_field_size rng)
        | false ↦ (false, r.1)
      ]

  -- The next key is set if every record was inserted.
  unfoldable pub load_database : Benchmark lib → (ℕ → ℕ) → Bool × Benchmark lib
  load_database b rng =
      let r = load_loop b.max_records 0 b.backend rng in
      let loaded : Benchmark lib = record b { backend = r.1 } in
      elim r.0 [
        | true ↦ (true, record loaded { next_insert_key = b.max_records })
        | false ↦ (false, loaded)
      ]

  -- Neither result is looked at.
  unfoldable pub prepare : Benchmark lib → (ℕ → ℕ) → Benchmark lib
  prepare b rng = (load_database (record b { backend = (lib.create_database b.backend).1 }) rng).1
