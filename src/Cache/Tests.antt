-- ===== src/Cache/Tests.antt =====
-- A cache of two pools, named by their first byte.
use cachelib_archive.Base.{
  ℕ, ◌+◌, ◌-◌, ◌≡◌, refl, false, Option, none, some, List, [], ◌∷◌, ◌==◌, if◌then◌else◌, arith,
}
use cachelib_archive.Cache.{CacheLib}
use cachelib_archive.Base.Text.{codes}
use cachelib_archive.CString.{is_space}
use cachelib_archive.Backend.{to_string, digits_of}
use cachelib_archive.Cache.Resize.Parsing.{read_config, config_text, joined, spaced}
use cachelib_archive.Cache.Resize.Parsing.Roundtrip.{read_config-config_text}
use cachelib_archive.Cache.Resize.{Pools, execute_new_config}
use cachelib_archive.Cache.Resize.Config.{AllSizes, sum_of, final, execute_new_config-sizes}

-- The size of each pool, and the memory that is not reserved.
abbrev Sizes : Type 0
Sizes = (ℕ → ℕ) × ℕ

abbrev put_size : Sizes → ℕ → ℕ → ℕ → Sizes
put_size (f, free) p n free' = (λ q. if q == p then n else f q, free')

abbrev id_of : List ℕ → Option ℕ
id_of [] = none
id_of (c ∷ s) = if c == b'a' then some 0 else some 1

abbrev two_pools : CacheLib
two_pools = record {
  State = Sizes;
  allocate = λ s _ _ _. some s;
  insert_or_replace = λ s _ _. s;
  find = λ s _. (none, s);
  remove = λ s _. (false, s);
  get_pool_id = λ s name. id_of name;
  add_pool = λ s _ _. (0, s);
  pool_size = λ s p. s.0 p;
  grow_pool = λ s p d. put_size s p (s.0 p + d) (s.1 - d);
  shrink_pool = λ s p d. put_size s p (s.0 p - d) (s.1 + d);
}

two_pools-Pools : Pools two_pools
two_pools-Pools = record {
  unreserved = λ s. s.1;
  size_grow = λ s p d h. ground arith;
  unreserved_grow = λ s p d h. omega arith;
  size_shrink = λ s p d h. ground arith;
  unreserved_shrink = λ s p d h. refl;
  size_other = λ s p q d ne. ground arith;
  same_names = λ s p d name. (refl, refl);
}

abbrev memory : Sizes
memory = (λ p. 40, 20)

abbrev number_of : List ℕ → ℕ
number_of [] = 2
number_of (c ∷ s) = if c == b'a' then 0 else 1

-- Pool a has three units, pool b one, and no memory is left.
abbrev full : Sizes
full = (λ p. if p == 0 then 50331648 else 16777216, 0)

-- Pool b is to have what a gives.
abbrev config : List (List ℕ × ℕ)
config = (b'b' ∷ [], 3) ∷ (b'a' ∷ [], 1) ∷ []

execute_new_config-sizes_example :
    (t : Sizes) × (execute_new_config two_pools full config ≡ some t)
    × AllSizes two_pools two_pools-Pools number_of final full t config
    × (two_pools-Pools.unreserved t + sum_of two_pools two_pools-Pools number_of final full config
        ≡ two_pools-Pools.unreserved full
          + sum_of two_pools two_pools-Pools number_of (λ cur wanted. cur) full config)
    × (t.0 5 ≡ 16777216)
unfolding two_pools-Pools sum_of
execute_new_config-sizes_example =
    execute_new_config-sizes two_pools two_pools-Pools number_of full config 5 (refl, (refl, tt))
      (((omega arith), tt), (tt, tt)) (omega arith) (omega arith)

abbrev two_sizes : List (List ℕ × ℕ)
two_sizes = (codes "pa", 12) ∷ (codes "pb", 3) ∷ []

two_sizes_text : config_text two_sizes ≡ codes "pa pb\n12 3"
unfolding joined spaced to_string digits_of
two_sizes_text = refl

read_config-config_text_example : read_config (config_text two_sizes) ≡ two_sizes
unfolding is_space
read_config-config_text_example = read_config-config_text two_sizes (
  (((omega arith), (refl, (refl, tt))), (omega arith)),
  ((((omega arith), (refl, (refl, tt))), (omega arith)), tt),
)
