-- ===== src/Program.antt =====
-- The program of the benchmark: the arguments of `main` in backend/src/main.cpp, and where each round
-- of its run starts. An `int` stands as its 32 bits.
use cachelib_archive.Base.{
  ℕ, zero, suc, ◌+◌, ◌-◌, ◌%◌, ◌^◌, Bool, true, false, Option, none, some, List, [], ◌∷◌, ◌==◌,
  if◌then◌else◌,
}
use cachelib_archive.Base.Text.{codes}
use cachelib_archive.CString.{str_eq}
use cachelib_archive.CString.Numbers.{stoi}
pub mod Arguments
pub mod Rounds
pub mod Totals
mod Tests

-- The variables that the arguments set.
pub record Options : Type 0 where
  pub cache_enabled : Bool
  pub do_prepare : Bool
  pub do_warmup : Bool
  pub do_run : Bool
  pub num_threads : ℕ
  pub run_times : ℕ
  pub profile_file : List ℕ
  pub log_info : ℕ
  pub current_max_queries : ℕ

unfoldable pub default_options : ℕ → Options
default_options max_queries = record {
  cache_enabled = false;
  do_prepare = true;
  do_warmup = false;
  do_run = true;
  num_threads = 1;
  run_times = 0;
  profile_file = [];
  log_info = 0;
  current_max_queries = max_queries;
}

pub data Flag : Type 0 where
  cache threads prepare warmup run profile loginfo maxquery help other : Flag

-- The chain of comparisons.
unfoldable pub flag_of : List ℕ → Flag
flag_of arg =
    if str_eq arg (codes "--cache")
    then cache
    else if str_eq arg (codes "--threads")
    then threads
    else if str_eq arg (codes "--prepare")
    then prepare
    else if str_eq arg (codes "--warmup")
    then warmup
    else if str_eq arg (codes "--run")
    then run
    else if str_eq arg (codes "--profile")
    then profile
    else if str_eq arg (codes "--loginfo")
    then loginfo
    else if str_eq arg (codes "--maxquery")
    then maxquery
    else if str_eq arg (codes "--help")
    then help
    else other

-- `main` goes on, returns 0 behind the help, or ends with the exception of `stoi`.
pub data Parsed : Type 0 where
  parsed : Options → Parsed
  helped threw : Parsed

-- The number in the next argument, if there is one.
unfoldable pub with_number : Options → (ℕ → Options) → List (List ℕ) → Parsed
with_number o set [] = parsed o
with_number o set (next ∷ rest) = elim (stoi next) [ none ↦ threw | some n ↦ parsed (set n) ]

-- `run_times` of -1 becomes INT_MAX.
unfoldable pub endless : Options → Options
endless o = if o.run_times == 2 ^ 32 - 1 then record o { run_times = 2 ^ 31 - 1 } else o

unfoldable pub endless_run : Parsed → Parsed
endless_run (parsed o) = parsed (endless o)
endless_run helped = helped
endless_run threw = threw

unfoldable pub next_profile : Options → List (List ℕ) → Options
next_profile o [] = o
next_profile o (next ∷ rest) = record o { profile_file = next }

-- One round of the loop over the arguments; `rest` are those behind.
unfoldable pub read_flag : Options → Flag → List (List ℕ) → Parsed
read_flag o cache rest = parsed (record o { cache_enabled = true })
read_flag o threads rest = with_number o (λ n. record o { num_threads = n }) rest
read_flag o prepare rest = parsed (record o { do_warmup = false; do_run = false })
read_flag o warmup rest = parsed (record o { do_prepare = false; do_warmup = true })
read_flag o run rest =
    let o' : Options = record o { do_prepare = false } in
    endless_run (with_number o' (λ n. record o' { run_times = n }) rest)
read_flag o profile rest = parsed (next_profile o rest)
read_flag o loginfo rest = with_number o (λ n. record o { log_info = n }) rest
read_flag o maxquery rest = with_number o (λ n. record o { current_max_queries = n }) rest
read_flag o help rest = helped
read_flag o other rest = parsed o

-- The loop looks at every argument, also at one that was the number of the one before.
unfoldable pub read_arguments : Options → List (List ℕ) → Parsed
read_arguments o [] = parsed o
read_arguments o (arg ∷ rest) = elim (read_flag o (flag_of arg) rest) [
  | parsed o' ↦ read_arguments o' rest
  | helped ↦ helped
  | threw ↦ threw
]

-- Where the next round starts, in `unsigned int` arithmetic.
unfoldable pub next_start : ℕ → ℕ → ℕ → ℕ
next_start max_records max_queries start = (start + max_queries) % 2 ^ 32 % max_records

-- `while(run_times --)`, for a number that is not negative: the start of each round.
unfoldable pub rounds : ℕ → ℕ → ℕ → ℕ → List ℕ
rounds max_records max_queries zero start = []
rounds max_records max_queries (suc run_times) start =
    start ∷ rounds max_records max_queries run_times (next_start max_records max_queries start)

-- The measured rounds, those under `do_run`, from where the warm-up has left off: from the first
-- record on without one. The rounds that warm up, under `do_warmup`, are not among them.
unfoldable pub rounds_of : ℕ → ℕ → Options → List ℕ
rounds_of max_records start o =
    if o.do_run then rounds max_records o.current_max_queries o.run_times start else []
