-- ===== src/Program/Totals/Joined.antt =====
-- The threads of a round come to their end: `thread.join()` returns.
use cachelib_archive.Base.{
  ℕ, suc, ◌+◌, ◌*◌, ◌<◌, ◌≡◌, refl, ap, ◌⊎◌, inl, inr, All, List, [], ◌∷◌, ◌++◌, map, arith, length,
}
use cachelib_archive.Program.Totals.{
  Result, Totals, Place, load_throughput, load_usedtime, add_hit_count, add_records, add_latencies,
  ended, store_throughput, store_usedtime, Worker, IsEnd, IsEnded, access, Round, accessed, Step,
  accesses, Reach, start, later,
}
use cachelib_archive.Program.Totals.Counts.{HasSums, Reach-HasSums, sum_by, sum_by-append}

-- The accesses that a thread has before it.
abbrev left {ℓ} : {A : Type ℓ} → Place A → ℕ
left load_throughput = 7
left (store_throughput a) = 6
left load_usedtime = 5
left (store_usedtime a) = 4
left add_hit_count = 3
left add_records = 2
left add_latencies = 1
left ended = 0

abbrev lefts {ℓ} : {A : Type ℓ} → List (Worker A) → ℕ
lefts = sum_by (λ w. left w.place)

module _ {ℓ} {A : Type ℓ} (add : A → A → A) where
  left-access :
      (r : Result A) (s : Totals A) (p : Place A)
      → ¬ IsEnd p
      → left p ≡ suc (left (access add r s p).0)
  unfolding access
  left-access r s load_throughput h = refl
  left-access r s (store_throughput a) h = refl
  left-access r s load_usedtime h = refl
  left-access r s (store_usedtime a) h = refl
  left-access r s add_hit_count h = refl
  left-access r s add_records h = refl
  left-access r s add_latencies h = refl
  left-access r s ended h = absurd (h tt)

  Reach-lefts :
      (zero_double : A) (results : List (Result A)) {n : ℕ} {s : Round A}
      → Reach add zero_double results n s
      → n + lefts s.workers ≡ 7 * length results
  Reach-lefts z results start = go results
    where
      go :
          (rs : List (Result A))
          → 0 + lefts (map (λ r. record { place = load_throughput; result = r }) rs) ≡ 7 * length rs
      go [] = omega arith
      go (r ∷ rs) = omega (arith, go rs)
  Reach-lefts z results (later {n} {s} reach (accesses before w behind at running)) =
      let w' : Worker A = record w { place = (access add w.result s.totals w.place).0 } in
      omega (
        arith,
        Reach-lefts z results reach,
        ap lefts at,
        sum_by-append (λ w. left w.place) before (w ∷ behind),
        sum_by-append (λ w. left w.place) before (w' ∷ behind),
        left-access w.result s.totals w.place running,
      )

  IsEnd-or : (p : Place A) → (IsEnd p × (left p ≡ 0)) ⊎ (¬ IsEnd p × (0 < left p))
  IsEnd-or ended = inl (tt, refl)
  IsEnd-or load_throughput = inr ((λ h. h), omega arith)
  IsEnd-or (store_throughput a) = inr ((λ h. h), omega arith)
  IsEnd-or load_usedtime = inr ((λ h. h), omega arith)
  IsEnd-or (store_usedtime a) = inr ((λ h. h), omega arith)
  IsEnd-or add_hit_count = inr ((λ h. h), omega arith)
  IsEnd-or add_records = inr ((λ h. h), omega arith)
  IsEnd-or add_latencies = inr ((λ h. h), omega arith)

  -- All have ended, or one of them is still to make an access.
  abbrev Goes : List (Worker A) → Type ℓ
  Goes ws =
      (before : List (Worker A)) × (w : Worker A) × (behind : List (Worker A)) × (ws
        ≡ before ++ w ∷ behind)
      × ¬ IsEnded w
      × (0 < lefts ws)

  All-Goes : (ws : List (Worker A)) → (All IsEnded ws × (lefts ws ≡ 0)) ⊎ Goes ws
  All-Goes [] = inl (tt, refl)
  All-Goes (w ∷ ws) = elim (IsEnd-or w.place) [
    | inr (running, l) ↦ inr ([], w, ws, refl, running, omega arith)
    | inl (e, z) ↦ elim (All-Goes ws) [
      | inl (es, none) ↦ inl ((e, es), omega arith)
      | inr (before, v, behind, at, running, l) ↦
          inr (w ∷ before, v, behind, ap (◌∷◌ w) at, running, omega arith)
    ]
  ]

-- In every state of a round, whatever the interleaving: either all its threads have ended, with
-- seven accesses each, and the hits and the records are the sums of what they counted modulo 2^32,
-- and every latency stands among all of them as often as the threads together have it; or fewer
-- accesses were made, and one of the threads can make the next. So no round blocks or goes on for
-- ever.
pub Reach-Joins {ℓ} :
    {A : Type ℓ} (add : A → A → A) (zero_double : A) (results : List (Result A)) (n : ℕ)
    (s : Round A)
    → Reach add zero_double results n s
    → (All IsEnded s.workers × (n ≡ 7 * length results) × HasSums results s.totals)
      ⊎ ((t : Round A) × Step add s t × (n < 7 * length results))
Reach-Joins add z results n s reach = elim (All-Goes add s.workers) [
  | inl (es, none) ↦
      inl (
        es,
        omega (arith, Reach-lefts add z results reach),
        Reach-HasSums add z results n s reach es,
      )
  | inr (before, w, behind, at, running, l) ↦ inr (
    accessed add before w behind s.totals,
    accesses before w behind at running,
    omega (arith, Reach-lefts add z results reach),
  )
]
