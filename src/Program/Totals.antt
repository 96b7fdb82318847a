-- ===== src/Program/Totals.antt =====
-- The totals of a round in backend/src/main.cpp, to which its threads add their results. Each is
-- atomic: `+=` is one access, but `total_throughput = total_throughput + throughput` is a load and a
-- store. A `double` is any type, with its addition; an `unsigned int` wraps at 2^32.
pub mod Counts
pub mod Joined
pub mod Lost
use cachelib_archive.Base.{
  ℕ, suc, ◌+◌, ◌%◌, ◌^◌, ◌≡◌, Bool, true, false, All, List, [], ◌∷◌, ◌++◌, map,
}

-- What a thread's run of the benchmark gave.
pub record Result {ℓ} (A : Type ℓ) : Type ℓ where
  pub throughput : A
  pub millis_elapsed : A
  pub hit_count : ℕ
  pub total_count : ℕ
  pub latencies : List ℕ

pub record Totals {ℓ} (A : Type ℓ) : Type ℓ where
  pub total_throughput : A
  pub total_usedtime : A
  pub total_hit_count : ℕ
  pub total_records_executed : ℕ
  pub total_latencies : List ℕ

-- The totals before a round.
abbrev pub no_totals {ℓ} : {A : Type ℓ} → A → Totals A
no_totals zero_double = record {
  total_throughput = zero_double;
  total_usedtime = zero_double;
  total_hit_count = 0;
  total_records_executed = 0;
  total_latencies = [];
}

-- Which access a thread comes to next, with what it has loaded.
pub data Place {ℓ} (A : Type ℓ) : Type ℓ where
  load_throughput load_usedtime add_hit_count add_records add_latencies ended : Place A
  store_throughput store_usedtime : A → Place A

pub record Worker {ℓ} (A : Type ℓ) : Type ℓ where
  pub place : Place A
  pub result : Result A

abbrev pub IsEnd {ℓ} : {A : Type ℓ} → Place A → Type 0
IsEnd ended = Unit
IsEnd _ = ⊥

abbrev pub IsEnded {ℓ} : {A : Type ℓ} → Worker A → Type 0
IsEnded w = IsEnd w.place

-- One access of a thread to the totals. The lock around the latencies makes their insertion one.
unfoldable pub access {ℓ} :
    {A : Type ℓ} → (A → A → A) → Result A → Totals A → Place A → Place A × Totals A
access add r s load_throughput = (store_throughput s.total_throughput, s)
access add r s (store_throughput a) =
    (load_usedtime, record s { total_throughput = add a r.throughput })
access add r s load_usedtime = (store_usedtime s.total_usedtime, s)
access add r s (store_usedtime a) =
    (add_hit_count, record s { total_usedtime = add a r.millis_elapsed })
access add r s add_hit_count =
    (add_records, record s { total_hit_count = (s.total_hit_count + r.hit_count) % 2 ^ 32 })
access add r s add_records = (
  add_latencies,
  record s { total_records_executed = (s.total_records_executed + r.total_count) % 2 ^ 32 },
)
access add r s add_latencies =
    (ended, record s { total_latencies = s.total_latencies ++ r.latencies })
access add r s ended = (ended, s)

pub record Round {ℓ} (A : Type ℓ) : Type ℓ where
  pub workers : List (Worker A)
  pub totals : Totals A

-- The round when its threads come to the totals.
abbrev pub started {ℓ} : {A : Type ℓ} → A → List (Result A) → Round A
started zero_double results = record {
  workers = map (λ r. record { place = load_throughput; result = r }) results;
  totals = no_totals zero_double;
}

-- The round behind an access of `w`, which stands between the others.
abbrev pub accessed {ℓ} :
    {A : Type ℓ} → (A → A → A) → List (Worker A) → Worker A → List (Worker A) → Totals A → Round A
accessed add before w behind s =
    let r = access add w.result s w.place in
    record { workers = before ++ record w { place = r.0 } ∷ behind; totals = r.1 }

pub data Step {ℓ} {A : Type ℓ} (add : A → A → A) (s : Round A) : Round A → Type ℓ where
  accesses :
      (before : List (Worker A)) (w : Worker A) (behind : List (Worker A))
      → s.workers ≡ before ++ w ∷ behind
      → ¬ IsEnded w
      → Step add s (accessed add before w behind s.totals)

-- The states of a round behind so many accesses, in any interleaving.
pub data Reach {ℓ} {A : Type ℓ} (add : A → A → A) (zero_double : A) (results : List (Result A))
    : ℕ → Round A → Type ℓ where
  start : Reach add zero_double results 0 (started zero_double results)
  later :
      {n : ℕ} {s t : Round A}
      → Reach add zero_double results n s
      → Step add s t
      → Reach add zero_double results (suc n) t
