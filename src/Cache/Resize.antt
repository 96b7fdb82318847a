-- ===== src/Cache/Resize.antt =====
-- `getPoolSizeFromName` and `resizePool` of clientserver/cachelibheader/cachelibHeader.cpp, and
-- `executeNewConfig` of clientserver/clientserver/server.cpp behind its parsing.
use cachelib_archive.Base.{
  ℕ, zero, suc, ◌+◌, ◌-◌, ◌*◌, ◌/◌, ◌<◌, ◌≤◌, ◌≡◌, ◌≢◌, Bool, true, false, Option, none, some, List,
  [], ◌∷◌, ltb, if◌then◌else◌,
}
use cachelib_archive.Cache.{CacheLib}
pub mod Fitting
pub mod Config
pub mod Parsing

-- `SIZE_CONV`, the unit of the sizes in a configuration.
abbrev pub size_conv : ℕ
size_conv = 16777216

-- What the resizing relies on in CacheLib: a pool grows by what is not reserved, and shrinks by what
-- it has; the other pools and the names stay.
pub record Pools (lib : CacheLib) : Type 0 where
  pub unreserved : lib.State → ℕ
  pub size_grow :
      (s : lib.State) (p d : ℕ)
      → d ≤ unreserved s
      → lib.pool_size (lib.grow_pool s p d) p ≡ lib.pool_size s p + d
  pub unreserved_grow :
      (s : lib.State) (p d : ℕ)
      → d ≤ unreserved s
      → unreserved (lib.grow_pool s p d) + d ≡ unreserved s
  pub size_shrink :
      (s : lib.State) (p d : ℕ)
      → d ≤ lib.pool_size s p
      → lib.pool_size (lib.shrink_pool s p d) p + d ≡ lib.pool_size s p
  pub unreserved_shrink :
      (s : lib.State) (p d : ℕ)
      → d ≤ lib.pool_size s p
      → unreserved (lib.shrink_pool s p d) ≡ unreserved s + d
  pub size_other :
      (s : lib.State) (p q d : ℕ)
      → q ≢ p
      → (lib.pool_size (lib.grow_pool s p d) q ≡ lib.pool_size s q)
        × (lib.pool_size (lib.shrink_pool s p d) q ≡ lib.pool_size s q)
  pub same_names :
      (s : lib.State) (p d : ℕ) (name : List ℕ)
      → (lib.get_pool_id (lib.grow_pool s p d) name ≡ lib.get_pool_id s name)
        × (lib.get_pool_id (lib.shrink_pool s p d) name ≡ lib.get_pool_id s name)

abbrev pub above : ℕ → ℕ → Bool
above curr wanted = ltb wanted curr

abbrev pub below : ℕ → ℕ → Bool
below curr wanted = ltb curr wanted

module _ (lib : CacheLib) where
  -- `none` is the exception of `getPoolStats` on a name that no pool has.
  unfoldable pub pool_size_from_name : lib.State → List ℕ → Option ℕ
  pool_size_from_name s name = elim (lib.get_pool_id s name) [
    | none ↦ none
    | some p ↦ some (lib.pool_size s p)
  ]

  unfoldable pub resize : lib.State → ℕ → ℕ → lib.State
  resize s p new_size =
      let curr_size = lib.pool_size s p in
      if ltb curr_size new_size
      then lib.grow_pool s p (new_size - curr_size)
      else if ltb new_size curr_size
      then lib.shrink_pool s p (curr_size - new_size)
      else s

  unfoldable pub resize_pool : lib.State → List ℕ → ℕ → Option lib.State
  resize_pool s name new_size = elim (lib.get_pool_id s name) [
    | none ↦ none
    | some p ↦ some (resize s p new_size)
  ]

  -- One round of a loop: `test` compares the current size, in units, with the wanted one.
  unfoldable pub resize_if : (ℕ → ℕ → Bool) → lib.State → List ℕ → ℕ → Option lib.State
  resize_if test s name wanted = elim (pool_size_from_name s name) [
    | none ↦ none
    | some size ↦
        if test (size / size_conv) wanted then resize_pool s name (wanted * size_conv) else some s
  ]

  unfoldable pub resize_all : (ℕ → ℕ → Bool) → lib.State → List (List ℕ × ℕ) → Option lib.State
  resize_all test s [] = some s
  resize_all test s ((name, wanted) ∷ config) = elim (resize_if test s name wanted) [
    | none ↦ none
    | some t ↦ resize_all test t config
  ]

  -- First the pools that are too large, then those that are too small.
  unfoldable pub execute_new_config : lib.State → List (List ℕ × ℕ) → Option lib.State
  execute_new_config s config = elim (resize_all above s config) [
    | none ↦ none
    | some t ↦ resize_all below t config
  ]
