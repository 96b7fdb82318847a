-- ===== src/Benchmark.antt =====
-- The benchmark that drives a backend: `YCSBBenchmark` of backend/src/benchmarks/YCSBBenchmark.cpp
-- and `Benchmark::run` of backend/src/benchmarks/benchmark.cpp. The random numbers are given: those
-- of the choice between a read and an insertion, of the distribution of keys, and of the fields.
use cachelib_archive.Base.{
  ℕ, zero, suc, ◌+◌, ◌*◌, ◌%◌, ◌^◌, Bool, true, false, Option, none, some, List, [], ◌∷◌, ltb, leb,
  ◌==◌, length, if◌then◌else◌,
}
pub mod Counting
pub mod Fields
pub mod Loading
mod Tests

-- What the benchmark uses of a backend.
pub record Backend : Type 1 where
  pub State : Type 0
  pub create_database : State → Bool × State
  pub read_record : State → ℕ → Option (List (List ℕ)) × State
  pub insert_record : State → ℕ → List (List ℕ) → Bool × State

-- An `unsigned int`.
unfoldable pub u32 : ℕ → ℕ
u32 n = n % 2 ^ 32

-- The numbers that one step draws.
pub record Draw : Type 0 where
  pub choice : ℕ
  pub key : ℕ
  pub fields : List (List ℕ)

module _ (lib : Backend) where
  pub record Benchmark : Type 0 where
    pub backend : lib.State
    pub next_insert_key : ℕ
    pub current_query : ℕ
    pub max_records : ℕ
    pub max_query : ℕ
    pub whether_sequence : Bool
    pub unified_sequential_counter : ℕ
    pub records_executed : ℕ

  -- A read fails too if it gives no fields.
  unfoldable pub bench_read : Benchmark → ℕ → Option Benchmark
  bench_read b key =
      let r = lib.read_record b.backend key in
      elim r.0 [
        | none ↦ none
        | some results ↦ if length results == 0 then none else some (record b { backend = r.1 })
      ]

  unfoldable pub bench_insert : Benchmark → ℕ → List (List ℕ) → Option Benchmark
  bench_insert b key values =
      let r = lib.insert_record b.backend key values in
      if r.0 then some (record b { backend = r.1; max_records = u32 (b.max_records + 1) }) else none

  -- The counter goes on in every mode.
  unfoldable pub next_counter : Benchmark → ℕ
  next_counter b =
      let n = u32 (b.unified_sequential_counter + 1) in if leb b.max_records n then 0 else n

  unfoldable pub key_of : Benchmark → Draw → ℕ
  key_of b d = if b.whether_sequence then b.unified_sequential_counter else d.key % b.max_records

  unfoldable pub count_query : Option Benchmark → Option Benchmark
  count_query none = none
  count_query (some b) = some (record b { current_query = u32 (b.current_query + 1) })

  -- `percent` is `query_proportion * 100`; `none` is false.
  unfoldable pub bench_step : ℕ → Benchmark → Draw → Option Benchmark
  bench_step percent b d =
      if ltb (d.choice % 100) percent
      then count_query
          (bench_read (record b { unified_sequential_counter = next_counter b }) (key_of b d))
      else count_query (
          bench_insert (record b { next_insert_key = b.next_insert_key + 1 }) b.next_insert_key
            d.fields)

  unfoldable pub is_end : Benchmark → Bool
  is_end b = if b.max_query == 0 then false else leb b.max_query b.current_query

  -- How `run` leaves off: it returns, it throws, or its fuel is used up.
  pub data Outcome : Type 0 where
    finished : Benchmark → Outcome
    threw unfinished : Outcome

  unfoldable pub count_record : Benchmark → Benchmark
  count_record b = record b { records_executed = u32 (b.records_executed + 1) }

  unfoldable pub run : ℕ → ℕ → Benchmark → (ℕ → Draw) → Outcome
  run zero percent b draws = unfinished
  run (suc fuel) percent b draws = elim (is_end b) [
    | true ↦ finished b
    | false ↦ elim (bench_step percent b (draws 0)) [
      | none ↦ threw
      | some b' ↦ run fuel percent (count_record b') (λ i. draws (suc i))
    ]
  ]
