-- ===== src/Program/Tests.antt =====
-- Command lines of the benchmark.
use cachelib_archive.Base.{All, ◌⊎◌, ◌+◌, ◌*◌, ◌<◌, ℕ, ◌≡◌, refl, true, false, List, [], ◌∷◌}
use cachelib_archive.Base.Text.{codes}
use cachelib_archive.CString.{str_eq, is_space}
use cachelib_archive.CString.Numbers.{
  stoi, stoi_sign, stoi_digits, skip_spaces, is_digit, leading, to_int,
}
use cachelib_archive.Program.{
  parsed, threw, default_options, read_arguments, read_flag, flag_of, with_number, endless,
  endless_run, rounds, rounds_of, next_start,
}
use cachelib_archive.Program.Arguments.{HasNoRound, read_arguments-HasNoRound}
use cachelib_archive.Program.Totals.{Result, Round, Reach, Step, IsEnded}
use cachelib_archive.Program.Totals.Counts.{HasSums}
use cachelib_archive.Program.Totals.Joined.{Reach-Joins}
use cachelib_archive.Program.Totals.Lost.{lost_throughput}

abbrev three_threads : List (List ℕ)
three_threads = codes "--cache" ∷ codes "--threads" ∷ codes "3" ∷ []

abbrev endless_line : List (List ℕ)
endless_line = codes "--run" ∷ codes "-1" ∷ []

-- All that the arguments go through.
reading : Unit {0}
unfolding default_options read_arguments read_flag flag_of with_number endless endless_run str_eq
    stoi stoi_sign stoi_digits skip_spaces is_space is_digit leading to_int rounds rounds_of
    next_start
reading = tt

three_threads_read :
    read_arguments (default_options 1000) three_threads
    ≡ parsed (record (default_options 1000) { cache_enabled = true; num_threads = 3 })
unfolding reading
three_threads_read = refl

endless_read :
    read_arguments (default_options 1000) endless_line
    ≡ parsed (record (default_options 1000) { do_prepare = false; run_times = 2147483647 })
unfolding reading
endless_read = refl

-- A word in place of a number ends the program.
word_read : read_arguments (default_options 1000) (codes "--threads" ∷ codes "--cache" ∷ []) ≡ threw
unfolding reading
word_read = refl

read_arguments-HasNoRound_example :
    HasNoRound 1000 (read_arguments (default_options 1000) three_threads)
unfolding str_eq
read_arguments-HasNoRound_example =
    read_arguments-HasNoRound 1000 1000 three_threads
      ((refl, refl), ((refl, refl), ((refl, refl), tt)))

abbrev one_result : Result ℕ
one_result = record {
  throughput = 40;
  millis_elapsed = 2;
  hit_count = 7;
  total_count = 9;
  latencies = 5 ∷ 6 ∷ [];
}

abbrev other_result : Result ℕ
other_result = record {
  throughput = 30;
  millis_elapsed = 3;
  hit_count = 2;
  total_count = 4;
  latencies = 6 ∷ [];
}

abbrev both_results : List (Result ℕ)
both_results = one_result ∷ other_result ∷ []

lost_throughput_example :
    (s : Round ℕ) × Reach ◌+◌ 0 both_results 14 s
    × All IsEnded s.workers
    × (s.totals.total_throughput ≡ 0 + 30)
lost_throughput_example = lost_throughput ◌+◌ 0 one_result other_result

-- The end of a round of two threads.
abbrev round_over :
    (s : Round ℕ) × Reach ◌+◌ 0 both_results 14 s
    × All IsEnded s.workers
    × (s.totals.total_throughput ≡ 0 + 30)
round_over = lost_throughput ◌+◌ 0 one_result other_result

Reach-Joins_example :
    (All IsEnded round_over.0.workers × (14 ≡ 7 * 2) × HasSums both_results round_over.0.totals)
    ⊎ ((t : Round ℕ) × Step ◌+◌ round_over.0 t × (14 < 7 * 2))
Reach-Joins_example = Reach-Joins ◌+◌ 0 both_results 14 round_over.0 round_over.1
