-- ===== src/Cache/Resize/Fitting.antt =====
-- A pool takes the size that is asked for, as long as there is memory for it.
use cachelib_archive.Base.{
  ℕ, ◌+◌, ◌-◌, ◌<◌, ◌≤◌, ◌≡◌, ◌≢◌, ◌⊎◌, inl, inr, refl, sym, subst, some, List, arith,
}
use cachelib_archive.Cache.{CacheLib}
use cachelib_archive.Cache.Resize.{Pools, resize, resize_pool}

module _ (lib : CacheLib) (pools : Pools lib) where
  -- The pool has the new size, what it gave or took is given to or taken from the memory that is
  -- not reserved, and another pool keeps its size.
  abbrev pub IsResized : lib.State → ℕ → ℕ → ℕ → lib.State → Type 0
  IsResized s p q new_size t =
      (lib.pool_size t p ≡ new_size)
      × (pools.unreserved t + new_size ≡ pools.unreserved s + lib.pool_size s p)
      × (lib.pool_size t q ≡ lib.pool_size s q)

  order_cases : (a b : ℕ) → (a < b) ⊎ ((b < a) ⊎ (a ≡ b))
  order_cases a b = ground arith

  pub resize-IsResized :
      (s : lib.State) (p q new_size : ℕ)
      → q ≢ p
      → new_size ≤ lib.pool_size s p + pools.unreserved s
      → IsResized s p q new_size (resize lib s p new_size)
  unfolding resize
  resize-IsResized s p q new_size ne room =
      let size = lib.pool_size s p in
      elim (order_cases size new_size) [
        | inl more ↦
            let d = new_size - size in
            let e : resize lib s p new_size ≡ lib.grow_pool s p d = ground arith in
            let grown = pools.size_grow s p d (omega arith) in
            let left = pools.unreserved_grow s p d (omega arith) in
            subst (IsResized s p q new_size) (sym e)
              ((omega arith), (omega arith), (pools.size_other s p q d ne).0)
        | inr (inl less) ↦
            let d = size - new_size in
            let e : resize lib s p new_size ≡ lib.shrink_pool s p d = ground arith in
            let shrunk = pools.size_shrink s p d (omega arith) in
            let left = pools.unreserved_shrink s p d (omega arith) in
            subst (IsResized s p q new_size) (sym e)
              ((omega arith), (omega arith), (pools.size_other s p q d ne).1)
        | inr (inr same) ↦
            let e : resize lib s p new_size ≡ s = ground arith in
            subst (IsResized s p q new_size) (sym e) (same, (omega arith), refl)
      ]

  -- `resizePool` on a pool's name and a size that the pool and the memory that is not reserved have
  -- room for returns; the pool has the new size, what it gave or took is made up by the memory that
  -- is not reserved, and every other pool keeps its size.
  pub resize_pool-IsResized :
      (s : lib.State) (name : List ℕ) (p q new_size : ℕ)
      → lib.get_pool_id s name ≡ some p
      → q ≢ p
      → new_size ≤ lib.pool_size s p + pools.unreserved s
      → (t : lib.State) × (resize_pool lib s name new_size ≡ some t) × IsResized s p q new_size t
  unfolding resize_pool
  resize_pool-IsResized s name p q new_size found ne room =
      (resize lib s p new_size, (ground arith), resize-IsResized s p q new_size ne room)
