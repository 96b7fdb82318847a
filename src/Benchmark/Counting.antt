-- ===== src/Benchmark/Counting.antt =====
-- The keys and the counts of the benchmark, over any backend.
use cachelib_archive.Base.{
  ℕ, zero, suc, ◌+◌, ◌%◌, ◌^◌, ◌<◌, ◌≤◌, ◌≡◌, ◌≢◌, refl, subst, ap, ◌∙◌, inl, inr, true, false,
  Option, none, some, List, length, ◌==◌, ltb, arith, Bool-cases, Option-cases,
}
use cachelib_archive.Benchmark.{
  Backend, Draw, Benchmark, Outcome, u32, bench_read, bench_insert, next_counter, key_of,
  count_query, bench_step, is_end, count_record, run,
}

module _ (lib : Backend) where
  -- The counter names a record.
  abbrev pub IsBounded : Benchmark lib → Type 0
  IsBounded b = (b.unified_sequential_counter < b.max_records) × (b.max_records < 2 ^ 32)

  mod_lt : (a n : ℕ) → 0 < n → a % n < n
  mod_lt a n h = ground arith

  u32_small : (n : ℕ) → n < 2 ^ 32 → u32 n ≡ n
  unfolding u32
  u32_small n h = omega arith

  key_of_lt : (b : Benchmark lib) (d : Draw) → IsBounded b → key_of lib b d < b.max_records
  unfolding key_of
  key_of_lt b d (h, small) = elim (Bool-cases b.whether_sequence) [
    | inl e ↦ rw e h
    | inr e ↦ rw e (mod_lt d.key b.max_records (omega arith))
  ]

  next_counter_lt : (b : Benchmark lib) → IsBounded b → next_counter lib b < b.max_records
  unfolding next_counter u32
  next_counter_lt b h = ground arith

  -- What a step does to the counts.
  abbrev Counts : Benchmark lib → Benchmark lib → Type 0
  Counts b t =
      (t.current_query ≡ b.current_query + 1)
      × (t.max_query ≡ b.max_query)
      × (t.records_executed ≡ b.records_executed)
      × (t.unified_sequential_counter < t.max_records)
      × (t.max_records ≤ b.max_records + 1)

  count_query-some :
      (o : Option (Benchmark lib)) (t : Benchmark lib)
      → count_query lib o ≡ some t
      → (s : Benchmark lib) × (o ≡ some s)
        × (record s { current_query = u32 (s.current_query + 1) } ≡ t)
  unfolding count_query
  count_query-some none t e = absurd (ground arith)
  count_query-some (some s) t e = (s, refl, (ground arith))

  bench_read-some :
      (b s : Benchmark lib) (key : ℕ)
      → bench_read lib b key ≡ some s
      → record b { backend = (lib.read_record b.backend key).1 } ≡ s
  unfolding bench_read
  bench_read-some b s key e = elim (Option-cases (lib.read_record b.backend key).0) [
    | inl bad ↦ absurd (ground arith)
    | inr (results, read) ↦ elim (Bool-cases (length results == 0)) [
      | inl empty ↦ absurd (ground arith)
      | inr fields ↦ ground arith
    ]
  ]

  bench_insert-some :
      (b s : Benchmark lib) (key : ℕ) (values : List (List ℕ))
      → bench_insert lib b key values ≡ some s
      → record b {
        backend = (lib.insert_record b.backend key values).1;
        max_records = u32 (b.max_records + 1);
      }
        ≡ s
  unfolding bench_insert
  bench_insert-some b s key values e =
      elim (Bool-cases (lib.insert_record b.backend key values).0) [
        | inl done ↦ ground arith
        | inr refused ↦ absurd (ground arith)
      ]

  bench_step-Counts :
      (percent : ℕ) (b t : Benchmark lib) (d : Draw)
      → bench_step lib percent b d ≡ some t
      → IsBounded b
      → b.max_records + 1 < 2 ^ 32
      → b.current_query + 1 < 2 ^ 32
      → Counts b t
  unfolding bench_step
  bench_step-Counts percent b t d e h m q =
      let counter = next_counter_lt b h in
      let c = u32_small (b.current_query + 1) q in
      let n = u32_small (b.max_records + 1) m in
      elim (Bool-cases (ltb (d.choice % 100) percent)) [
        | inl reads ↦
            let b' : Benchmark lib = record b { unified_sequential_counter = next_counter lib b } in
            let (s, ok, is) =
              count_query-some (bench_read lib b' (key_of lib b d)) t (ground arith) in
            let from = bench_read-some b' s (key_of lib b d) ok in
            subst (λ (x : Benchmark lib). Counts b x) is
              (subst
                (λ (x : Benchmark lib).
                  Counts b (record x { current_query = u32 (x.current_query + 1) }))
                from (c, refl, refl, counter, omega arith))
        | inr inserts ↦
            let b' : Benchmark lib = record b { next_insert_key = b.next_insert_key + 1 } in
            let (s, ok, is) =
              count_query-some (bench_insert lib b' b.next_insert_key d.fields) t (ground arith) in
            let from = bench_insert-some b' s b.next_insert_key d.fields ok in
            subst (λ (x : Benchmark lib). Counts b x) is
              (subst
                (λ (x : Benchmark lib).
                  Counts b (record x { current_query = u32 (x.current_query + 1) }))
                from (c, refl, refl, omega arith, omega arith))
      ]

  -- The benchmark behind so many rounds of the loop; `none` if a step is false before.
  unfoldable pub state_at : ℕ → ℕ → Benchmark lib → (ℕ → Draw) → Option (Benchmark lib)
  state_at zero percent b draws = some b
  state_at (suc n) percent b draws = elim (bench_step lib percent b (draws 0)) [
    | none ↦ none
    | some b' ↦ state_at n percent (count_record lib b') (λ i. draws (suc i))
  ]

  -- What `n` rounds do to the counts.
  abbrev pub IsBehind : ℕ → Benchmark lib → Benchmark lib → Type 0
  IsBehind n b t =
      (t.current_query ≡ b.current_query + n)
      × (t.records_executed ≡ b.records_executed + n)
      × (t.max_query ≡ b.max_query)
      × IsBounded t

  -- Room for `n` more queries, records and counts below 2 ^ 32.
  abbrev pub HasRoom : ℕ → Benchmark lib → Type 0
  HasRoom n b =
      IsBounded b
      × (b.max_records + n < 2 ^ 32)
      × (b.current_query + n < 2 ^ 32)
      × (b.records_executed + n < 2 ^ 32)

  -- A round from a state with room for one more.
  round-HasRoom :
      (n percent : ℕ) (b t : Benchmark lib) (d : Draw)
      → bench_step lib percent b d ≡ some t
      → HasRoom (suc n) b
      → HasRoom n (count_record lib t) × IsBehind 1 b (count_record lib t)
  unfolding count_record
  round-HasRoom n percent b t d e (h, m, q, r) =
      let (c1, c2, c3, c4, c5) = bench_step-Counts percent b t d e h (omega arith) (omega arith) in
      let u : u32 (t.records_executed + 1) ≡ b.records_executed + 1 =
        u32_small (t.records_executed + 1) (omega arith) ∙ ap (λ x. x + 1) c3 in
      let bounded : IsBounded t = (c4, omega arith) in
      ((bounded, omega arith, omega arith, omega arith), (c1, u, c2, bounded))

  -- Over any backend, and whatever is drawn, from a counter that names a record and with room for
  -- `n` more queries below 2 ^ 32: behind `n` rounds, `n` queries and `n` records more are counted,
  -- and a read asks for the key of a record, in the sequence and at random.
  pub state_at-key :
      (n percent : ℕ) (b t : Benchmark lib) (draws : ℕ → Draw) (d : Draw)
      → HasRoom n b
      → state_at n percent b draws ≡ some t
      → IsBehind n b t × (key_of lib t d < t.max_records)
  unfolding state_at
  state_at-key zero percent b t draws d room e =
      let is : b ≡ t = ground arith in
      subst (λ (x : Benchmark lib). IsBehind 0 b x × (key_of lib x d < x.max_records)) is
        ((omega arith, omega arith, refl, room.0), key_of_lt b d room.0)
  state_at-key (suc n) percent b t draws d room e =
      elim (Option-cases (bench_step lib percent b (draws 0))) [
        | inl bad ↦ absurd (ground arith)
        | inr (b', step) ↦
            let (room', (k1, k2, k3, k4)) = round-HasRoom n percent b b' (draws 0) step room in
            let ((r1, r2, r3, r4), below) =
              state_at-key n percent (count_record lib b') t (λ i. draws (suc i)) d room'
                (ground arith) in
            ((omega arith, omega arith, r3 ∙ k3, r4), below)
      ]

  -- How a run ends that has `n` queries left: behind all of them, or with an exception, at a step
  -- before them that is false in the state that the steps before it have reached.
  abbrev pub IsEnded : ℕ → ℕ → Benchmark lib → (ℕ → Draw) → Outcome lib → Type 0
  IsEnded n percent b draws (Outcome.finished t) =
      (state_at n percent b draws ≡ some t) × IsBehind n b t
  IsEnded n percent b draws Outcome.threw =
      (i : ℕ) × (t : Benchmark lib) × (i < n)
      × (state_at i percent b draws ≡ some t)
      × (bench_step lib percent t (draws i) ≡ none)
  IsEnded n percent b draws Outcome.unfinished = ⊥

  -- One round more in front.
  front-IsEnded :
      (n percent : ℕ) (b b' : Benchmark lib) (draws : ℕ → Draw) (o : Outcome lib)
      → bench_step lib percent b (draws 0) ≡ some b'
      → IsBehind 1 b (count_record lib b')
      → IsEnded n percent (count_record lib b') (λ i. draws (suc i)) o
      → IsEnded (suc n) percent b draws o
  unfolding state_at
  front-IsEnded n percent b b' draws (Outcome.finished t) step (k1, k2, k3, k4)
        (reached, (r1, r2, r3, r4)) =
      (rw (step, state_at) reached, (omega arith, omega arith, r3 ∙ k3, r4))
  front-IsEnded n percent b b' draws Outcome.threw step k (i, t, less, reached, bad) =
      (suc i, t, omega arith, rw (step, state_at) reached, bad)
  front-IsEnded n percent b b' draws Outcome.unfinished step k h = h

  -- Over any backend, and whatever is drawn, a run to a number of queries other than 0, from a
  -- counter that names a record, with room below 2 ^ 32 and enough fuel, ends: behind exactly the
  -- queries that are left, with one record counted for each of them, or with an exception, at the
  -- first step that is false.
  pub run-IsEnded :
      (fuel n percent : ℕ) (b : Benchmark lib) (draws : ℕ → Draw)
      → HasRoom n b
      → b.max_query ≢ 0
      → b.max_query ≡ b.current_query + n
      → n < fuel
      → IsEnded n percent b draws (run lib fuel percent b draws)
  unfolding run is_end state_at
  run-IsEnded zero n percent b draws room some_query left f = absurd (omega arith)
  run-IsEnded (suc fuel) zero percent b draws room some_query left f =
      let over : is_end lib b ≡ true = ground arith in
      rw (over, run) (refl, (omega arith, omega arith, refl, room.0))
  run-IsEnded (suc fuel) (suc n) percent b draws room some_query left f =
      let more : is_end lib b ≡ false = ground arith in
      elim (Option-cases (bench_step lib percent b (draws 0))) [
        | inl bad ↦ rw (more, run, bad) (0, b, omega arith, refl, bad)
        | inr (b', step) ↦
            let (room', k) = round-HasRoom n percent b b' (draws 0) step room in
            let (k1, k2, k3, k4) = k in
            rw (more, run, step)
              (front-IsEnded n percent b b' draws _ step k (
                run-IsEnded fuel n percent (count_record lib b') (λ i. draws (suc i)) room'
                  (λ z. some_query (omega arith)) (omega arith) (omega arith)))
      ]
