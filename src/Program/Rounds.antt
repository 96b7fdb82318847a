-- ===== src/Program/Rounds.antt =====
-- Where the rounds of the benchmark start.
use cachelib_archive.Base.{
  ℕ, zero, suc, ◌+◌, ◌*◌, ◌%◌, ◌^◌, ◌<◌, ◌≡◌, sym, ap, ◌∙◌, some, get_elem?, arith,
}
use native.Mathlib.Nat.{mod-add-mod, mod-eq_of_lt, mod-lt}
use cachelib_archive.Program.{next_start, rounds}

-- The round of index `i` starts, in the records, `i` times the number of queries behind the first.
-- The first starts within the records, and the sum of records and queries fits an `unsigned int`.
pub rounds-start :
    (max_records max_queries run_times start i : ℕ)
    → i < run_times
    → start < max_records
    → max_records + max_queries < 2 ^ 32
    → get_elem? (rounds max_records max_queries run_times start) i
      ≡ some ((start + i * max_queries) % max_records)
unfolding rounds next_start
rounds-start m q zero start i l h f = absurd (omega arith)
rounds-start m q (suc n) start zero l h f =
    let same : (start + 0 * q) % m ≡ start =
      ap (λ k. k % m) (let e : start + 0 * q ≡ start = omega arith in e) ∙ mod-eq_of_lt h in
    ap some (sym same)
rounds-start m q (suc n) start (suc i) l h f =
    let small : (start + q) % 2 ^ 32 ≡ start + q = omega arith in
    let sum : start + q + i * q ≡ start + suc i * q = omega arith in
    let inside : (start + q) % 2 ^ 32 % m < m = mod-lt ((start + q) % 2 ^ 32) (omega arith) in
    rounds-start m q n ((start + q) % 2 ^ 32 % m) i (omega arith) inside f
    ∙ ap some (
        ap (λ k. (k % m + i * q) % m) small
        ∙ mod-add-mod (start + q) m (i * q)
        ∙ ap (λ k. k % m) sum)
