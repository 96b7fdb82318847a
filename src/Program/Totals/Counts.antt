-- ===== src/Program/Totals/Counts.antt =====
-- What the threads of a round add up to.
use cachelib_archive.Base.{
  ℕ, suc, ◌+◌, ◌%◌, ◌^◌, ◌<◌, ◌≡◌, refl, ap, ◌∙◌, All, List, [], ◌∷◌, ◌++◌, map, arith, ◌==◌,
  if◌then◌else◌,
}
use cachelib_archive.Program.Totals.{
  Result, Totals, no_totals, Place, load_throughput, load_usedtime, add_hit_count, add_records,
  add_latencies, ended, store_throughput, store_usedtime, Worker, IsEnd, IsEnded, access, Round,
  accesses, Reach, start, later,
}

abbrev pub sum_by {ℓ} : {A : Type ℓ} → (A → ℕ) → List A → ℕ
sum_by f [] = 0
sum_by f (x ∷ xs) = f x + sum_by f xs

-- How often a number stands in a list.
abbrev pub count : ℕ → List ℕ → ℕ
count v [] = 0
count v (x ∷ xs) = let rest = count v xs in if x == v then suc rest else rest

count-append : (v : ℕ) (xs ys : List ℕ) → count v (xs ++ ys) ≡ count v xs + count v ys
count-append v [] ys = omega arith
count-append v (x ∷ xs) ys = ground (arith, count-append v xs ys)

pub sum_by-append {ℓ} :
    {A : Type ℓ} (f : A → ℕ) (xs ys : List A) → sum_by f (xs ++ ys) ≡ sum_by f xs + sum_by f ys
sum_by-append f [] ys = omega arith
sum_by-append f (x ∷ xs) ys = omega (arith, sum_by-append f xs ys)

pub sum_by-map {ℓ κ} :
    {A : Type ℓ} {B : Type κ} (f : B → ℕ) (g : A → B) (xs : List A)
    → sum_by f (map g xs) ≡ sum_by (λ x. f (g x)) xs
sum_by-map f g [] = refl
sum_by-map f g (x ∷ xs) = omega (arith, sum_by-map f g xs)

-- What a thread is still to add, by where it is.
abbrev before_hits {ℓ} : {A : Type ℓ} → ℕ → Place A → ℕ
before_hits n load_throughput = n
before_hits n (store_throughput a) = n
before_hits n load_usedtime = n
before_hits n (store_usedtime a) = n
before_hits n add_hit_count = n
before_hits n add_records = 0
before_hits n add_latencies = 0
before_hits n ended = 0

abbrev before_records {ℓ} : {A : Type ℓ} → ℕ → Place A → ℕ
before_records n add_records = n
before_records n p = before_hits n p

abbrev before_latencies {ℓ} : {A : Type ℓ} → ℕ → Place A → ℕ
before_latencies n add_latencies = n
before_latencies n p = before_records n p

IsEnd-ended {ℓ} : {A : Type ℓ} (p : Place A) → IsEnd p → p ≡ ended
IsEnd-ended ended e = refl
IsEnd-ended load_throughput e = absurd e
IsEnd-ended (store_throughput a) e = absurd e
IsEnd-ended load_usedtime e = absurd e
IsEnd-ended (store_usedtime a) e = absurd e
IsEnd-ended add_hit_count e = absurd e
IsEnd-ended add_records e = absurd e
IsEnd-ended add_latencies e = absurd e

module _ {ℓ} {A : Type ℓ} (add : A → A → A) (zero_double : A) (results : List (Result A)) where
  -- A number of the totals, with what the threads are still to add to it, up to `norm`.
  module _ (norm : ℕ → ℕ) (q : Totals A → ℕ) (due : Result A → Place A → ℕ) where
    abbrev dues : List (Worker A) → ℕ
    dues = sum_by (λ w. due w.result w.place)

    abbrev Keeps : Type ℓ
    Keeps =
        (r : Result A) (s : Totals A) (p : Place A) (rest : ℕ)
        → norm (q (access add r s p).1 + (due r (access add r s p).0 + rest))
          ≡ norm (q s + (due r p + rest))

    Reach-Balanced :
        Keeps
        → q (no_totals zero_double) ≡ 0
        → {n : ℕ} {s : Round A} → Reach add zero_double results n s
        → norm (q s.totals + dues s.workers) ≡ norm (sum_by (λ r. due r load_throughput) results)
    Reach-Balanced keeps none start = ap norm (
        omega (
          arith,
          none,
          sum_by-map {B = Worker A} (λ w. due w.result w.place)
              (λ r. record { place = load_throughput; result = r }) results,
        ))
    Reach-Balanced keeps none (later {s = s} reach (accesses before w behind at running)) =
        let r = access add w.result s.totals w.place in
        let w' : Worker A = record w { place = r.0 } in
        let rest : ℕ = dues before + dues behind in
        ap norm (omega (arith, sum_by-append (λ w. due w.result w.place) before (w' ∷ behind)))
        ∙ keeps w.result s.totals w.place rest
        ∙ ap norm (
            omega
              (arith, sum_by-append (λ w. due w.result w.place) before (w ∷ behind), ap dues at))
        ∙ Reach-Balanced keeps none reach

    -- Nothing is due when all have ended.
    ended_dues :
        ((r : Result A) → due r ended ≡ 0) → (ws : List (Worker A)) → All IsEnded ws → dues ws ≡ 0
    ended_dues none [] e = refl
    ended_dues none (w ∷ ws) (e, es) =
        omega
          (arith, none w.result, ap (due w.result) (IsEnd-ended w.place e), ended_dues none ws es)

    -- So the number is then what all threads had to add.
    Reach-total :
        Keeps
        → q (no_totals zero_double) ≡ 0
        → ((r : Result A) → due r ended ≡ 0)
        → {n : ℕ} {s : Round A} → Reach add zero_double results n s
        → All IsEnded s.workers
        → norm (q s.totals) ≡ norm (sum_by (λ r. due r load_throughput) results)
    Reach-total keeps first none {s = s} reach e =
        ap norm (omega (arith, ended_dues none s.workers e)) ∙ Reach-Balanced keeps first reach

  hits_keeps : Keeps (λ n. n % 2 ^ 32) (λ s. s.total_hit_count) (λ r. before_hits r.hit_count)
  unfolding access
  hits_keeps r s load_throughput rest = refl
  hits_keeps r s (store_throughput a) rest = refl
  hits_keeps r s load_usedtime rest = refl
  hits_keeps r s (store_usedtime a) rest = refl
  hits_keeps r s add_hit_count rest = omega arith
  hits_keeps r s add_records rest = refl
  hits_keeps r s add_latencies rest = refl
  hits_keeps r s ended rest = refl

  records_keeps :
      Keeps (λ n. n % 2 ^ 32) (λ s. s.total_records_executed) (λ r. before_records r.total_count)
  unfolding access
  records_keeps r s load_throughput rest = refl
  records_keeps r s (store_throughput a) rest = refl
  records_keeps r s load_usedtime rest = refl
  records_keeps r s (store_usedtime a) rest = refl
  records_keeps r s add_hit_count rest = refl
  records_keeps r s add_records rest = omega arith
  records_keeps r s add_latencies rest = refl
  records_keeps r s ended rest = refl

  latencies_keeps :
      (v : ℕ)
      → Keeps
          (λ n. n)
          (λ s. count v s.total_latencies)
          (λ r. before_latencies (count v r.latencies))
  unfolding access
  latencies_keeps v r s load_throughput rest = refl
  latencies_keeps v r s (store_throughput a) rest = refl
  latencies_keeps v r s load_usedtime rest = refl
  latencies_keeps v r s (store_usedtime a) rest = refl
  latencies_keeps v r s add_hit_count rest = refl
  latencies_keeps v r s add_records rest = refl
  latencies_keeps v r s add_latencies rest =
      omega (arith, count-append v s.total_latencies r.latencies)
  latencies_keeps v r s ended rest = refl

  -- Both counters stay within 32 bits.
  abbrev Fits : Totals A → Type 0
  Fits s = (s.total_hit_count < 2 ^ 32) × (s.total_records_executed < 2 ^ 32)

  access-Fits : (r : Result A) (s : Totals A) (p : Place A) → Fits s → Fits (access add r s p).1
  unfolding access
  access-Fits r s load_throughput f = f
  access-Fits r s (store_throughput a) f = f
  access-Fits r s load_usedtime f = f
  access-Fits r s (store_usedtime a) f = f
  access-Fits r s add_hit_count f = (omega arith, f.1)
  access-Fits r s add_records f = (f.0, omega arith)
  access-Fits r s add_latencies f = f
  access-Fits r s ended f = f

  Reach-Fits : {n : ℕ} {s : Round A} → Reach add zero_double results n s → Fits s.totals
  Reach-Fits start = (omega arith, omega arith)
  Reach-Fits (later {s = s} reach (accesses before w behind at running)) =
      access-Fits w.result s.totals w.place (Reach-Fits reach)

-- The totals are what the results add up to.
abbrev pub HasSums {ℓ} : {A : Type ℓ} → List (Result A) → Totals A → Type 0
HasSums results s =
    (s.total_hit_count ≡ sum_by (λ r. r.hit_count) results % 2 ^ 32)
    × (s.total_records_executed ≡ sum_by (λ r. r.total_count) results % 2 ^ 32)
    × ((v : ℕ) → count v s.total_latencies ≡ sum_by (λ r. count v r.latencies) results)

-- When all threads of a round have ended, in whatever order their accesses came.
pub Reach-HasSums {ℓ} :
    {A : Type ℓ} (add : A → A → A) (zero_double : A) (results : List (Result A)) (n : ℕ)
    (s : Round A)
    → Reach add zero_double results n s
    → All IsEnded s.workers
    → HasSums results s.totals
Reach-HasSums add z results n s reach e =
    let fits = Reach-Fits add z results reach in
    (
      omega (
        arith,
        fits.0,
        Reach-total add z results (λ n. n % 2 ^ 32) (λ s. s.total_hit_count)
            (λ r. before_hits r.hit_count) (hits_keeps add z results) refl (λ r. refl) reach e,
      ),
      omega (
        arith,
        fits.1,
        Reach-total add z results (λ n. n % 2 ^ 32) (λ s. s.total_records_executed)
            (λ r. before_records r.total_count) (records_keeps add z results) refl (λ r. refl) reach
            e,
      ),
      λ v.
          Reach-total add z results (λ n. n) (λ s. count v s.total_latencies)
            (λ r. before_latencies (count v r.latencies)) (latencies_keeps add z results v) refl
            (λ r. refl) reach e,
    )
