-- ===== src/Program/Totals/Lost.antt =====
-- The additions of throughputs that a store overwrites.
use cachelib_archive.Base.{ℕ, suc, ◌≡◌, refl, ◌∙◌, All, [], ◌∷◌}
use cachelib_archive.Program.Totals.{
  Result, Totals, no_totals, Place, load_throughput, load_usedtime, add_hit_count, add_records,
  add_latencies, ended, store_throughput, store_usedtime, IsEnd, IsEnded, access, Round, accesses,
  Reach, start, later,
}

module _ {ℓ} {A : Type ℓ} (add : A → A → A) (zero_double : A) (a b : Result A) where
  -- The round of two threads, by where they are.
  abbrev two : Place A → Place A → Totals A → Round A
  two p q s = record {
    workers = record { place = p; result = a } ∷ record { place = q; result = b } ∷ [];
    totals = s;
  }

  abbrev Gets : ℕ → Place A → Place A → Totals A → Type ℓ
  Gets n p q s = Reach add zero_double (a ∷ b ∷ []) n (two p q s)

  -- An access of the first thread, or of the second.
  first :
      (p q : Place A) {n : ℕ} {s : Totals A}
      → Gets n p q s
      → ¬ IsEnd p
      → Gets (suc n) (access add a s p).0 q (access add a s p).1
  first p q r running = later r (accesses [] _ _ refl running)

  second :
      (p q : Place A) {n : ℕ} {s : Totals A}
      → Gets n p q s
      → ¬ IsEnd q
      → Gets (suc n) p (access add b s q).0 (access add b s q).1
  second p q r running = later r (accesses (_ ∷ []) _ [] refl running)

  -- A thread that has stored its throughput goes on to its end.
  first_ends :
      (q : Place A) (n : ℕ) (s : Totals A)
      → Gets n load_usedtime q s
      → (t : Totals A) × Gets (suc (suc (suc (suc (suc n))))) ended q t
        × (t.total_throughput ≡ s.total_throughput)
  unfolding access
  first_ends q n s r =
      let used =
        first (store_usedtime s.total_usedtime) q (first load_usedtime q r (λ h. h)) (λ h. h) in
      let counted = first add_records q (first add_hit_count q used (λ h. h)) (λ h. h) in
      (_, first add_latencies q counted (λ h. h), refl)

  second_ends :
      (p : Place A) (n : ℕ) (s : Totals A)
      → Gets n p load_usedtime s
      → (t : Totals A) × Gets (suc (suc (suc (suc (suc n))))) p ended t
        × (t.total_throughput ≡ s.total_throughput)
  unfolding access
  second_ends p n s r =
      let used =
        second p (store_usedtime s.total_usedtime) (second p load_usedtime r (λ h. h)) (λ h. h) in
      let counted = second p add_records (second p add_hit_count used (λ h. h)) (λ h. h) in
      (_, second p add_latencies counted (λ h. h), refl)

  abbrev one_stored : Totals A
  one_stored = record (no_totals zero_double) { total_throughput = add zero_double a.throughput }

  abbrev both_stored : Totals A
  both_stored = record one_stored { total_throughput = add zero_double b.throughput }

  -- Both load before either stores.
  overlapped : Gets 4 load_usedtime load_usedtime both_stored
  unfolding access
  overlapped =
      let z : Place A = store_throughput zero_double in
      let one : Gets 1 z load_throughput (no_totals zero_double) =
        first load_throughput load_throughput start (λ h. h) in
      let loaded : Gets 2 z z (no_totals zero_double) = second z load_throughput one (λ h. h) in
      let stored : Gets 3 load_usedtime z one_stored = first z z loaded (λ h. h) in
      second load_usedtime z stored (λ h. h)

-- Two threads can come to their end, by fourteen accesses, so that the total throughput is the sum
-- of the start and the second one's: the first one's is lost.
pub lost_throughput {ℓ} :
    {A : Type ℓ} (add : A → A → A) (zero_double : A) (a b : Result A)
    → (s : Round A) × Reach add zero_double (a ∷ b ∷ []) 14 s
      × All IsEnded s.workers
      × (s.totals.total_throughput ≡ add zero_double b.throughput)
lost_throughput add z a b =
    let (s, one, kept) = first_ends add z a b load_usedtime 4 _ (overlapped add z a b) in
    let (t, two, kept') = second_ends add z a b ended 9 s one in
    (_, two, (tt, (tt, tt)), kept' ∙ kept)
