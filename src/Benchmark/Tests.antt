-- ===== src/Benchmark/Tests.antt =====
-- A short run over two backends: one that answers every request, and one that does not.
use cachelib_archive.Base.{
  ℕ, ◌+◌, ◌*◌, ◌<◌, ◌≡◌, refl, true, none, ◌==◌, if◌then◌else◌, some, [], ◌∷◌, arith,
}
use cachelib_archive.Benchmark.{
  Backend, Draw, Benchmark, Outcome, key_of, run, u32, bench_read, bench_insert, next_counter,
  count_query, bench_step, is_end, count_record,
}
use cachelib_archive.Base.{length, get_elem?}
use cachelib_archive.Base.Text.{codes}
use cachelib_archive.Benchmark.Fields.{random_fast_string, round_loop, mask_loop, rest_loop, symbol}
use cachelib_archive.Benchmark.Fields.Spec.{symbol_at, IsSymbol, random_fast_string_lem}
use cachelib_archive.Benchmark.Counting.{
  HasRoom, IsBehind, IsEnded, state_at, state_at-key, run-IsEnded,
}

abbrev answering : Backend
answering = record {
  State = ℕ;
  create_database = λ s. (true, s);
  read_record = λ s k. (some ((b'a' ∷ []) ∷ []), s);
  insert_record = λ s k values. (true, s + 1);
}

abbrev bench : Benchmark answering
bench = record {
  backend = 0;
  next_insert_key = 3;
  current_query = 0;
  max_records = 3;
  max_query = 5;
  whether_sequence = true;
  unified_sequential_counter = 0;
  records_executed = 0;
}

-- Every other choice is an insertion.
abbrev draws : ℕ → Draw
draws i = record { choice = i * 50; key = i; fields = (b'a' ∷ []) ∷ [] }

bench-HasRoom : (n : ℕ) → n < 100 → HasRoom answering n bench
bench-HasRoom n h = ((omega arith, omega arith), omega arith, omega arith, omega arith)

-- The first query is a read, the second an insertion.
abbrev two_queries : Benchmark answering
two_queries = record bench {
  backend = 1;
  next_insert_key = 4;
  current_query = 2;
  max_records = 4;
  unified_sequential_counter = 1;
  records_executed = 2;
}

state_at-key_example :
    IsBehind answering 2 bench two_queries × (key_of answering two_queries (draws 2) < 4)
unfolding state_at bench_step bench_read bench_insert next_counter key_of count_query count_record
    u32
state_at-key_example =
    state_at-key answering 2 50 bench two_queries draws (draws 2) (bench-HasRoom 2 (omega arith))
      refl

run-IsEnded_example : IsEnded answering 5 50 bench draws (run answering 6 50 bench draws)
run-IsEnded_example =
    run-IsEnded answering 6 5 50 bench draws (bench-HasRoom 5 (omega arith)) (omega arith) refl
      (omega arith)

-- A backend that does not find the third record.
abbrev forgetful : Backend
forgetful = record {
  State = ℕ;
  create_database = λ s. (true, s);
  read_record = λ s k. ((if k == 2 then none else some ((b'a' ∷ []) ∷ [])), s);
  insert_record = λ s k values. (true, s);
}

abbrev forgetful_bench : Benchmark forgetful
forgetful_bench = record {
  backend = 0;
  next_insert_key = 3;
  current_query = 0;
  max_records = 3;
  max_query = 5;
  whether_sequence = true;
  unified_sequential_counter = 0;
  records_executed = 0;
}

-- It ends the run, in which every query is a read, at the third.
forgetful-threw : run forgetful 6 100 forgetful_bench draws ≡ Outcome.threw
unfolding run is_end bench_step bench_read bench_insert next_counter key_of count_query count_record
    u32
forgetful-threw = refl

-- Ten symbols of one number, and two of two more.
twelve : random_fast_string (λ i. i * 5 + 3) 12 ≡ codes "337BJZ57BJ8D"
unfolding random_fast_string round_loop mask_loop rest_loop symbol
twelve = refl

random_fast_string_lem_example :
    (length (random_fast_string (λ i. i * 5) 12) ≡ 12)
    × (get_elem? (random_fast_string (λ i. i * 5) 12) 11 ≡ some (symbol_at (λ i. i * 5) 12 11))
    × IsSymbol (symbol_at (λ i. i * 5) 12 11)
random_fast_string_lem_example = random_fast_string_lem (λ i. i * 5) 12 11 (omega arith)
