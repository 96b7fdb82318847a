-- ===== src/Server/Stats.antt =====
-- What `getCacheStats` gives for a name.
use mathlib.Core.Option
use cachelib_archive.Base.{
  ℕ, ◌/◌, ◌≡◌, ◌≢◌, refl, sym, ◌∙◌, ◌⊎◌, inl, inr, true, false, Option, none, some, List, [], ◌∷◌,
  if◌then◌else◌, arith, Bool-cases,
}
use cachelib_archive.CString.{str_eq}
use cachelib_archive.CString.Laws.{str_eq_iff}
use cachelib_archive.Cache.{CacheLib}
use cachelib_archive.Cache.Resize.{size_conv}
use cachelib_archive.Server.{
  PoolNames, AreNamed, Listed, str_lt, put_stat, stats_loop, get_cache_stats,
}

-- The size under a name.
abbrev pub stat : List ℕ → List (List ℕ × ℕ) → Option ℕ
stat name [] = none
stat name ((k, v) ∷ stats) = let rest = stat name stats in if str_eq k name then some v else rest

str_eq_self : (s : List ℕ) → str_eq s s ≡ true
str_eq_self s = (str_eq_iff s s).1 refl

stat-put_stat :
    (name : List ℕ) (n : ℕ) (stats : List (List ℕ × ℕ)) → stat name (put_stat name n stats) ≡ some n
unfolding put_stat
stat-put_stat name n [] = rw (str_eq_self name)
stat-put_stat name n ((k, v) ∷ stats) = elim (Bool-cases (str_eq k name)) [
  | inl same ↦ rw (same, same)
  | inr differs ↦ elim (Bool-cases (str_lt name k)) [
    | inl before ↦ rw (differs, before, str_eq_self name)
    | inr behind ↦ rw (differs, behind, differs) (stat-put_stat name n stats)
  ]
]

-- The other names keep their sizes.
stat-put_stat_other :
    (name j : List ℕ) (n : ℕ) (stats : List (List ℕ × ℕ))
    → str_eq name j ≡ false
    → stat j (put_stat name n stats) ≡ stat j stats
unfolding put_stat
stat-put_stat_other name j n [] h = rw h
stat-put_stat_other name j n ((k, v) ∷ stats) h = elim (Bool-cases (str_eq k name)) [
  | inl same ↦
      let e : k ≡ name = (str_eq_iff k name).0 same in
      let away : str_eq k j ≡ false = rw e h in rw (same, away)
  | inr differs ↦ elim (Bool-cases (str_lt name k)) [
    | inl before ↦ rw (differs, before, h)
    | inr behind ↦ rw (differs, behind, stat-put_stat_other name j n stats h)
  ]
]

module _ (lib : CacheLib) (pools : PoolNames lib) where
  -- A loop over pools none of which has the name.
  stat-stats_loop_none :
      (s : lib.State) (name : List ℕ) (ids : List ℕ) (res : List (List ℕ × ℕ))
      → ((q : ℕ) → Listed q ids → pools.pool_name s q ≢ name)
      → stat name (stats_loop lib pools s ids res) ≡ stat name res
  unfolding stats_loop
  stat-stats_loop_none s name [] res none_has = refl
  stat-stats_loop_none s name (q ∷ ids) res none_has =
      stat-stats_loop_none s name ids _ (λ p l. none_has p (inr l))
      ∙ stat-put_stat_other (pools.pool_name s q) name _ res
          (elim (Bool-cases (str_eq (pools.pool_name s q) name)) [
            | inl same ↦
                absurd (none_has q (inl refl) ((str_eq_iff (pools.pool_name s q) name).0 same))
            | inr differs ↦ differs
          ])

  -- A loop over pools of which only `p` has the name, and which comes to it, or came to it before.
  stat-stats_loop :
      (s : lib.State) (name : List ℕ) (p : ℕ) (ids : List ℕ) (res : List (List ℕ × ℕ))
      → ((q : ℕ) → Listed q ids → pools.pool_name s q ≡ name → q ≡ p)
      → pools.pool_name s p ≡ name
      → (stat name res ≡ some (lib.pool_size s p / size_conv)) ⊎ Listed p ids
      → stat name (stats_loop lib pools s ids res) ≡ some (lib.pool_size s p / size_conv)
  unfolding stats_loop
  stat-stats_loop s name p [] res only at (inl e) = e
  stat-stats_loop s name p [] res only at (inr l) = absurd l
  stat-stats_loop s name p (q ∷ ids) res only at h =
      stat-stats_loop s name p ids _ (λ r l. only r (inr l)) at
        (elim (Bool-cases (str_eq (pools.pool_name s q) name)) [
          | inl same ↦
              let e : pools.pool_name s q ≡ name = (str_eq_iff (pools.pool_name s q) name).0 same in
              let is : q ≡ p = only q (inl refl) e in
              inl (rw (is, at) (stat-put_stat name (lib.pool_size s p / size_conv) res))
          | inr differs ↦ elim h [
            | inl e ↦ inl (stat-put_stat_other (pools.pool_name s q) name _ res differs ∙ e)
            | inr (inl here) ↦
                let hit : str_eq (pools.pool_name s q) name ≡ true =
                  (str_eq_iff (pools.pool_name s q) name).1 (rw here at at) in
                absurd (ground arith)
            | inr (inr l) ↦ inr l
          ]
        ])

  -- `getCacheStats` has exactly the names of pools, each with the pool's size in units.
  pub stat-get_cache_stats :
      AreNamed lib pools
      → (s : lib.State) (name : List ℕ)
      → stat name (get_cache_stats lib pools s)
        ≡ Option.map (λ p. lib.pool_size s p / size_conv) (lib.get_pool_id s name)
  unfolding get_cache_stats
  stat-get_cache_stats named s name = by_id (lib.get_pool_id s name) refl
    where
      by_id :
          (o : Option ℕ)
          → lib.get_pool_id s name ≡ o
          → stat name (stats_loop lib pools s (pools.pool_ids s) [])
            ≡ Option.map (λ p. lib.pool_size s p / size_conv) o
      by_id none e = stat-stats_loop_none s name (pools.pool_ids s) [] (λ q l same.
          let f : lib.get_pool_id s name ≡ some q = rw same at (named.found s q l) in
          let no : none ≡ some q = sym e ∙ f in absurd (ground arith))
      by_id (some p) e =
          let (l, at) = named.listed s name p e in
          stat-stats_loop s name p (pools.pool_ids s) []
            (λ q k same.
              let f : lib.get_pool_id s name ≡ some q = rw same at (named.found s q k) in
              let one : some q ≡ some p = sym f ∙ e in cc)
            at (inr l)
