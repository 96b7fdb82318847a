-- ===== src/Server/Tests.antt =====
-- The messages of a server with two pools, named by one byte.
use cachelib_archive.Base.{
  ℕ, ◌+◌, ◌-◌, ◌≡◌, refl, sym, inl, inr, Bool-cases, false, Option, none, some, List, [], ◌∷◌, ◌==◌,
  if◌then◌else◌, arith,
}
use cachelib_archive.CString.{is_space, str_eq}
use cachelib_archive.CString.Laws.{str_eq_iff}
use cachelib_archive.Backend.{to_string, digits_of}
use cachelib_archive.Cache.{CacheLib}
use cachelib_archive.Cache.Resize.{Pools}
use cachelib_archive.Cache.Resize.Config.{sum_of}
use cachelib_archive.Cache.Resize.Parsing.{config_text, joined, spaced}
use cachelib_archive.Server.{
  PoolNames, AreNamed, Listed, dispatch, configured, answered, stats_text, get_cache_stats,
  stats_loop, put_stat, str_lt, command,
}
use cachelib_archive.Server.Dispatch.{AllReported, dispatch-reports}

-- The size of each pool, and the memory that is not reserved.
abbrev Sizes : Type 0
Sizes = (ℕ → ℕ) × ℕ

abbrev sized : Sizes → ℕ → ℕ → ℕ → Sizes
sized (f, free) p n free' = (λ q. if q == p then n else f q, free')

abbrev id_of : List ℕ → Option ℕ
id_of name =
    if str_eq name (b'a' ∷ []) then some 0 else if str_eq name (b'b' ∷ []) then some 1 else none

abbrev two_pools : CacheLib
two_pools = record {
  State = Sizes;
  allocate = λ s _ _ _. some s;
  insert_or_replace = λ s _ _. s;
  find = λ s _. (none, s);
  remove = λ s _. (false, s);
  get_pool_id = λ s name. id_of name;
  add_pool = λ s _ _. (0, s);
  pool_size = λ s p. s.0 p;
  grow_pool = λ s p d. sized s p (s.0 p + d) (s.1 - d);
  shrink_pool = λ s p d. sized s p (s.0 p - d) (s.1 + d);
}

two_pools-Pools : Pools two_pools
two_pools-Pools = record {
  unreserved = λ s. s.1;
  size_grow = λ s p d h. ground arith;
  unreserved_grow = λ s p d h. omega arith;
  size_shrink = λ s p d h. ground arith;
  unreserved_shrink = λ s p d h. refl;
  size_other = λ s p q d ne. ground arith;
  same_names = λ s p d name. (refl, refl);
}

abbrev two_names : PoolNames two_pools
two_names = record {
  pool_ids = λ s. 0 ∷ 1 ∷ [];
  pool_name = λ s p. if p == 0 then b'a' ∷ [] else b'b' ∷ [];
}

id_of-name :
    (name : List ℕ) (p : ℕ)
    → id_of name ≡ some p
    → Listed p (0 ∷ 1 ∷ []) × ((if p == 0 then b'a' ∷ [] else b'b' ∷ []) ≡ name)
id_of-name name p h = elim (Bool-cases (str_eq name (b'a' ∷ []))) [
  | inl a ↦
      let e : some 0 ≡ some p = rw a at h in
      let is : 0 ≡ p = cc in
      let at : name ≡ b'a' ∷ [] = (str_eq_iff name (b'a' ∷ [])).0 a in
      (inl (sym is), rw (sym is) (sym at))
  | inr not_a ↦ elim (Bool-cases (str_eq name (b'b' ∷ []))) [
    | inl b ↦
        let e : some 1 ≡ some p = rw (not_a, b) at h in
        let is : 1 ≡ p = cc in
        let at : name ≡ b'b' ∷ [] = (str_eq_iff name (b'b' ∷ [])).0 b in
        (inr (inl (sym is)), rw (sym is) (sym at))
    | inr not_b ↦ let e : none ≡ some p = rw (not_a, not_b) at h in absurd (ground arith)
  ]
]

two_names-AreNamed : AreNamed two_pools two_names
unfolding str_eq
two_names-AreNamed = record {
  listed = λ s name p h. id_of-name name p h;
  found = λ s p l. elim l [
    | inl e ↦ rw e refl
    | inr l' ↦ elim l' [ inl e ↦ rw e refl | inr l'' ↦ absurd l'' ]
  ];
}

-- Pool a has three units, pool b one, and no memory is left.
abbrev full : Sizes
full = (λ p. if p == 0 then 50331648 else 16777216, 0)

abbrev number_of : List ℕ → ℕ
number_of name = if str_eq name (b'a' ∷ []) then 0 else 1

-- Pool b is to have what a gives.
abbrev config : List (List ℕ × ℕ)
config = (b'b' ∷ [], 3) ∷ (b'a' ∷ [], 1) ∷ []

dispatch-reports_example :
    (t : Sizes) × (dispatch two_pools two_names 5 full (b'S' ∷ b':' ∷ config_text config)
      ≡ configured t)
    × (dispatch two_pools two_names 5 t (b'G' ∷ [])
        ≡ answered (stats_text (get_cache_stats two_pools two_names t)))
    × AllReported two_pools two_pools-Pools two_names two_names-AreNamed number_of t config
unfolding two_pools-Pools sum_of str_eq is_space joined spaced to_string digits_of
dispatch-reports_example =
    dispatch-reports two_pools two_pools-Pools two_names two_names-AreNamed number_of 5 full config
      b':' (refl, (refl, tt)) (((omega arith), tt), (tt, tt)) (omega arith)
      (
        (((omega arith), (refl, tt)), (omega arith)),
        ((((omega arith), (refl, tt)), (omega arith)), tt),
      )
      (omega arith) (omega arith)

-- The answer, before the sizes are set.
full_answer :
    dispatch two_pools two_names 5 full (b'G' ∷ [])
    ≡ answered (b'a' ∷ b':' ∷ b'3' ∷ b';' ∷ b'b' ∷ b':' ∷ b'1' ∷ b';' ∷ [])
unfolding dispatch command get_cache_stats stats_loop put_stat str_lt str_eq stats_text to_string
    digits_of
full_answer = refl
