-- ===== src/Cache.antt =====
-- The wrappers of clientserver/cachelibheader/cachelibHeader.cpp around CacheLib. CacheLib itself is
-- a parameter: its state, and the calls that the wrappers make.
pub mod Resize
mod Tests
use cachelib_archive.Base.{
  ℕ, ◌+◌, ◌-◌, ◌*◌, Bool, true, false, Option, none, some, List, ltb, if◌then◌else◌, length,
}

-- `none` is an empty handle, or a pool that is not there.
pub record CacheLib : Type 1 where
  pub State : Type 0
  pub allocate : State → ℕ → List ℕ → ℕ → Option State
  pub insert_or_replace : State → List ℕ → List ℕ → State
  pub find : State → List ℕ → Option (List ℕ) × State
  pub remove : State → List ℕ → Bool × State
  pub get_pool_id : State → List ℕ → Option ℕ
  pub add_pool : State → List ℕ → ℕ → ℕ × State
  pub pool_size : State → ℕ → ℕ
  pub grow_pool : State → ℕ → ℕ → State
  pub shrink_pool : State → ℕ → ℕ → State

module _ (lib : CacheLib) where
  -- `set_`: false where no memory is given.
  unfoldable pub set_value : lib.State → ℕ → List ℕ → List ℕ → Bool × lib.State
  set_value s pid key value = elim (lib.allocate s pid key (length value)) [
    | none ↦ (false, s)
    | some s' ↦ (true, lib.insert_or_replace s' key value)
  ]

  -- `get_`, given what the buffer holds: the cached bytes go over its start.
  unfoldable pub get_value : lib.State → List ℕ → Option (List ℕ) × lib.State
  get_value s key = lib.find s key

  -- `del_`.
  unfoldable pub del_value : lib.State → List ℕ → Bool × lib.State
  del_value s key = lib.remove s key

  -- `addpool_`: the pool of that name, made with the default size if there is none.
  unfoldable pub addpool : lib.State → ℕ → List ℕ → ℕ × lib.State
  addpool s size name = elim (lib.get_pool_id s name) [
    | none ↦ lib.add_pool s name size
    | some pid ↦ (pid, s)
  ]
