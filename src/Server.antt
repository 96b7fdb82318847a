-- ===== src/Server.antt =====
-- The listener of the cache server: the messages of `listen_addpool` of
-- clientserver/clientserver/server.cpp, and `getCacheStats`, behind what Registration says of the
-- one that asks for a pool.
pub mod Stats
pub mod Dispatch
mod Tests
use cachelib_archive.Base.{
  ℕ, ◌+◌, ◌/◌, ◌≡◌, ◌⊎◌, Bool, true, false, Option, none, some, List, [], ◌∷◌, ◌++◌, ltb, ◌==◌,
  if◌then◌else◌,
}
use cachelib_archive.CString.{str_eq}
use cachelib_archive.Backend.{to_string}
use cachelib_archive.Cache.{CacheLib, addpool}
use cachelib_archive.Cache.Resize.{size_conv, execute_new_config}
use cachelib_archive.Cache.Resize.Parsing.{read_config}
use cachelib_archive.Registration.{request, out_of_range, overrun, request_text}

-- What CacheLib tells of its pools: which there are, and their names.
pub record PoolNames (lib : CacheLib) : Type 0 where
  pub pool_ids : lib.State → List ℕ
  pub pool_name : lib.State → ℕ → List ℕ

abbrev pub Listed : ℕ → List ℕ → Type 0
Listed p [] = ⊥
Listed p (q ∷ qs) = (p ≡ q) ⊎ Listed p qs

-- The pools that are listed are those that a name finds, and a name finds one pool.
pub record AreNamed (lib : CacheLib) (pools : PoolNames lib) : Type 0 where
  pub listed :
      (s : lib.State) (name : List ℕ) (p : ℕ)
      → lib.get_pool_id s name ≡ some p
      → Listed p (pools.pool_ids s) × (pools.pool_name s p ≡ name)
  pub found :
      (s : lib.State) (p : ℕ)
      → Listed p (pools.pool_ids s)
      → lib.get_pool_id s (pools.pool_name s p) ≡ some p

-- The order of the strings in a `std::map`.
unfoldable pub str_lt : List ℕ → List ℕ → Bool
str_lt s [] = false
str_lt [] (d ∷ t) = true
str_lt (c ∷ s) (d ∷ t) =
    let rest = str_lt s t in if ltb c d then true else if ltb d c then false else rest

-- `res[name] = size`.
unfoldable pub put_stat : List ℕ → ℕ → List (List ℕ × ℕ) → List (List ℕ × ℕ)
put_stat name size [] = (name, size) ∷ []
put_stat name size ((k, v) ∷ res) =
    let rest = put_stat name size res in
    if str_eq k name
    then (k, size) ∷ res
    else if str_lt name k
    then (name, size) ∷ (k, v) ∷ res
    else (k, v) ∷ rest

-- The text of the answer.
unfoldable pub stats_text : List (List ℕ × ℕ) → List ℕ
stats_text [] = []
stats_text ((name, size) ∷ stats) = name ++ b':' ∷ (to_string size ++ b';' ∷ stats_text stats)

module _ (lib : CacheLib) (pools : PoolNames lib) where
  unfoldable pub stats_loop : lib.State → List ℕ → List (List ℕ × ℕ) → List (List ℕ × ℕ)
  stats_loop s [] res = res
  stats_loop s (pid ∷ ids) res =
      stats_loop s ids (put_stat (pools.pool_name s pid) (lib.pool_size s pid / size_conv) res)

  unfoldable pub get_cache_stats : lib.State → List (List ℕ × ℕ)
  get_cache_stats s = stats_loop s (pools.pool_ids s) []

-- What the listener does with a message: it has a pool for the name that is asked for, sends an
-- answer, has set the sizes, ends, does nothing, ends with an exception,
-- or is undefined.
pub data Handled (State : Type 0) : Type 0 where
  pooled : List ℕ → ℕ → State → Handled State
  answered : List ℕ → Handled State
  configured : State → Handled State
  ended : Handled State
  ignored : Handled State
  threw undefined : Handled State

-- The commands, by the first byte of the buffer; an empty message leaves a NUL there.
pub data Command : Type 0 where
  register get_stats set_status end other : Command

unfoldable pub command : List ℕ → Command
command [] = other
command (c ∷ received) =
    if c == b'A'
    then register
    else if c == b'G'
    then get_stats
    else if c == b'S'
    then set_status
    else if c == b'E'
    then end
    else other

module _ (lib : CacheLib) (pools : PoolNames lib) (pool_size : ℕ) where
  unfoldable pub dispatch : lib.State → List ℕ → Handled lib.State
  dispatch s received = elim (command received) [
    | register ↦ elim (request_text received) [
      | out_of_range ↦ threw
      | overrun ↦ undefined
      | request name ↦ let r = addpool lib s pool_size name in pooled name r.0 r.1
    ]
    | get_stats ↦ answered (stats_text (get_cache_stats lib pools s))
    | set_status ↦ elim (request_text received) [
      | out_of_range ↦ threw
      | overrun ↦ undefined
      | request message ↦ elim (execute_new_config lib s (read_config message)) [
        | none ↦ threw
        | some t ↦ configured t
      ]
    ]
    | end ↦ ended
    | other ↦ ignored
  ]
