-- ===== src/Program/Arguments.antt =====
-- The number of rounds that the arguments ask for, and whether they ask for a warm-up.
use cachelib_archive.Base.{
  ℕ, ◌≡◌, refl, subst, ◌∙◌, false, List, [], ◌∷◌, All, arith, Option-cases, Bool-cases, inl, inr,
}
use cachelib_archive.Base.Text.{codes}
use cachelib_archive.CString.{str_eq}
use cachelib_archive.CString.Numbers.{stoi}
use cachelib_archive.Program.{
  Options, default_options, Flag, cache, threads, prepare, warmup, run, profile, loginfo, maxquery,
  help, other, flag_of, Parsed, parsed, helped, threw, with_number, next_profile, read_flag,
  read_arguments, rounds, rounds_of,
}

-- The options that are read, if the program goes on, have this number of rounds, and no warm-up.
abbrev pub HasRuns : ℕ → Parsed → Type 0
HasRuns n (parsed o) = (o.run_times ≡ n) × (o.do_warmup ≡ false)
HasRuns n helped = Unit {0}
HasRuns n threw = Unit {0}

flag_of-run : (arg : List ℕ) → str_eq arg (codes "--run") ≡ false → flag_of arg ≡ run → ⊥
unfolding flag_of
flag_of-run arg differs e = ground arith

flag_of-warmup : (arg : List ℕ) → str_eq arg (codes "--warmup") ≡ false → flag_of arg ≡ warmup → ⊥
unfolding flag_of
flag_of-warmup arg differs e = ground arith

with_number-HasRuns :
    (o : Options) (set : ℕ → Options) (rest : List (List ℕ))
    → o.do_warmup ≡ false
    → ((n : ℕ) → ((set n).run_times ≡ o.run_times) × ((set n).do_warmup ≡ o.do_warmup))
    → HasRuns o.run_times (with_number o set rest)
unfolding with_number
with_number-HasRuns o set [] cold h = (refl, cold)
with_number-HasRuns o set (next ∷ rest) cold h = elim (Option-cases (stoi next)) [
  | inl bad ↦ rw (bad, with_number) tt
  | inr (n, read) ↦ rw (read, with_number) ((h n).0, (h n).1 ∙ cold)
]

next_profile-HasRuns :
    (o : Options) (rest : List (List ℕ))
    → o.do_warmup ≡ false
    → HasRuns o.run_times (parsed (next_profile o rest))
unfolding next_profile
next_profile-HasRuns o [] cold = (refl, cold)
next_profile-HasRuns o (next ∷ rest) cold = (refl, cold)

read_flag-HasRuns :
    (o : Options) (flag : Flag) (rest : List (List ℕ))
    → o.do_warmup ≡ false
    → (flag ≡ run → ⊥)
    → (flag ≡ warmup → ⊥)
    → HasRuns o.run_times (read_flag o flag rest)
unfolding read_flag
read_flag-HasRuns o cache rest cold h k = (refl, cold)
read_flag-HasRuns o threads rest cold h k = with_number-HasRuns o _ rest cold λ n. (refl, refl)
read_flag-HasRuns o prepare rest cold h k = (refl, refl)
read_flag-HasRuns o warmup rest cold h k = absurd (k refl)
read_flag-HasRuns o run rest cold h k = absurd (h refl)
read_flag-HasRuns o profile rest cold h k = next_profile-HasRuns o rest cold
read_flag-HasRuns o loginfo rest cold h k = with_number-HasRuns o _ rest cold λ n. (refl, refl)
read_flag-HasRuns o maxquery rest cold h k = with_number-HasRuns o _ rest cold λ n. (refl, refl)
read_flag-HasRuns o help rest cold h k = tt
read_flag-HasRuns o other rest cold h k = (refl, cold)

-- No argument is `--run`, and none is `--warmup`.
abbrev pub NoRun : List (List ℕ) → Type 0
NoRun args =
    All (λ arg. (str_eq arg (codes "--run") ≡ false) × (str_eq arg (codes "--warmup") ≡ false)) args

-- What is read first, and the arguments behind it.
go_on-HasRuns :
    (o : Options) (arg : List ℕ) (rest : List (List ℕ)) (p : Parsed)
    → read_flag o (flag_of arg) rest ≡ p
    → HasRuns o.run_times p
    → ((o' : Options) → o'.do_warmup ≡ false → HasRuns o'.run_times (read_arguments o' rest))
    → HasRuns o.run_times (read_arguments o (arg ∷ rest))
unfolding read_arguments
go_on-HasRuns o arg rest (parsed o') e (same, cold) behind =
    rw (e, read_arguments) (subst (λ n. HasRuns n (read_arguments o' rest)) same (behind o' cold))
go_on-HasRuns o arg rest helped e same behind = rw (e, read_arguments) tt
go_on-HasRuns o arg rest threw e same behind = rw (e, read_arguments) tt

read_arguments-HasRuns :
    (o : Options) (args : List (List ℕ))
    → NoRun args
    → o.do_warmup ≡ false
    → HasRuns o.run_times (read_arguments o args)
unfolding read_arguments
read_arguments-HasRuns o [] h cold = (refl, cold)
read_arguments-HasRuns o (arg ∷ rest) ((differs, cool), h) cold =
    go_on-HasRuns o arg rest (read_flag o (flag_of arg) rest) refl
      (read_flag-HasRuns o (flag_of arg) rest cold (flag_of-run arg differs)
        (flag_of-warmup arg cool))
      λ o' cold'. read_arguments-HasRuns o' rest h cold'

-- The program does no round of the benchmark, if it goes on: `do_warmup` is false, so that none
-- warms up, and none is measured from the first record on.
abbrev pub HasNoRound : ℕ → Parsed → Type 0
HasNoRound max_records (parsed o) = (o.do_warmup ≡ false) × (rounds_of max_records 0 o ≡ [])
HasNoRound max_records helped = Unit {0}
HasNoRound max_records threw = Unit {0}

runs-HasNoRound : (max_records : ℕ) (p : Parsed) → HasRuns 0 p → HasNoRound max_records p
unfolding rounds_of rounds
runs-HasNoRound max_records (parsed o) (h, cold) = elim (Bool-cases o.do_run) [
  | inl on ↦ (cold, rw (on, rounds_of, h) refl)
  | inr off ↦ (cold, rw (off, rounds_of) refl)
]
runs-HasNoRound max_records helped h = tt
runs-HasNoRound max_records threw h = tt

-- With neither `--run` nor `--warmup` among the arguments, and so without any argument, the program
-- does no round of the benchmark, to warm up or measured: it ends behind the help or with an
-- exception of `stoi`, or goes on with no warm-up and an empty list of rounds.
pub read_arguments-HasNoRound :
    (max_records max_queries : ℕ) (args : List (List ℕ))
    → NoRun args
    → HasNoRound max_records (read_arguments (default_options max_queries) args)
unfolding default_options
read_arguments-HasNoRound max_records max_queries args h =
    runs-HasNoRound max_records (read_arguments (default_options max_queries) args)
      (read_arguments-HasRuns (default_options max_queries) args h refl)
