-- ===== src/Backend.antt =====
-- The databases behind the cache: backend/src/backend/backend.cpp, backend/src/cache/AutoIncCache.cpp
-- and backend/src/utils/cache_utils.h. The two backends that are modelled have files of their own.
use cachelib_archive.Base.{
  ℕ, zero, suc, ◌+◌, ◌*◌, ◌/◌, ◌%◌, ◌-◌, ◌^◌, ◌<◌, ◌≡◌, ◌⊎◌, Bool, true, false, Option, none, some,
  List, [], ◌∷◌, ◌++◌, length, take, drop, ltb, if◌then◌else◌,
}
use cachelib_archive.CString.Laws.{IsText}
use cachelib_archive.Shm.{shm_value_size}
pub mod Packing
pub mod Numbers
pub mod Agreement
pub mod Freshness
pub mod Sql
pub mod Mongo
pub mod Connection
pub mod Leveldb
pub mod Disk
mod Tests

-- `std::to_string` of a number that is not negative.
unfoldable pub digits_of : ℕ → ℕ → List ℕ
digits_of zero n = []
digits_of (suc fuel) n = elim (ltb n 10) [
  | true ↦ (b'0' + n) ∷ []
  | false ↦ digits_of fuel (n / 10) ++ (b'0' + n % 10) ∷ []
]

unfoldable pub to_string : ℕ → List ℕ
to_string n = digits_of (suc n) n

-- `std::to_string` of an `int`, given by its 32 bits.
unfoldable pub int_string : ℕ → List ℕ
int_string n = if ltb n (2 ^ 31) then to_string n else b'-' ∷ to_string (2 ^ 32 - n)

-- A request that the shared block can carry: its texts have no NUL in them, and fit the buffers.
abbrev pub IsSendable : ℕ → List ℕ → List ℕ → Type 0
IsSendable room key value =
    IsText key × IsText value × (length key < room) × (length value < shm_value_size)

-- What a backend uses of `CachelibClient`. `Has s k v` says that the cache may answer `v` under `k`:
-- an answer is empty or such a value, a look-up adds none, and a store adds its own at most.
pub record Client : Type 1 where
  pub State : Type 0
  pub room : ℕ
  pub set_kv : State → List ℕ → List ℕ → State
  pub get_kv : State → List ℕ → List ℕ × State
  pub del_kv : State → List ℕ → State
  pub Has : State → List ℕ → List ℕ → Type 0
  pub has_get :
      (s : State) (k : List ℕ)
      → IsText k
      → length k < room
      → ((get_kv s k).0 ≡ []) ⊎ Has s k (get_kv s k).0
  pub get_has :
      (s : State) (k k' v : List ℕ)
      → IsText k
      → length k < room
      → Has (get_kv s k).1 k' v
      → Has s k' v
  pub set_has :
      (s : State) (k v k' v' : List ℕ)
      → IsSendable room k v
      → Has (set_kv s k v) k' v'
      → Has s k' v' ⊎ ((k' ≡ k) × (v' ≡ v))

abbrev pub max_value : ℕ
max_value = 4194304

module _ (lib : Client) where
  -- `client` is `none` where the pointer is null.
  pub record AutoIncCache : Type 0 where
    pub counter : ℕ
    pub subpool_name : List ℕ
    pub client : Option lib.State

  unfoldable pub initialize : AutoIncCache → lib.State → AutoIncCache
  initialize c s = record c { client = some s }

  unfoldable pub set_subpool : AutoIncCache → List ℕ → AutoIncCache
  set_subpool c subpool = record c { subpool_name = subpool }

  unfoldable pub full_key : AutoIncCache → List ℕ → List ℕ
  full_key c key = int_string c.counter ++ b'_' ∷ (c.subpool_name ++ b'_' ∷ key)

  unfoldable pub cache_set : AutoIncCache → List ℕ → List ℕ → Bool × AutoIncCache
  cache_set c key value = if ltb max_value (length value) then (false, c) else elim c.client [
    | none ↦ (false, c)
    | some s ↦ (true, record c { client = some (lib.set_kv s (full_key c key) value) })
  ]

  unfoldable pub cache_get : AutoIncCache → List ℕ → List ℕ × AutoIncCache
  cache_get c key = elim c.client [
    | none ↦ ([], c)
    | some s ↦ let r = lib.get_kv s (full_key c key) in (r.0, record c { client = some r.1 })
  ]

  unfoldable pub cache_del : AutoIncCache → List ℕ → Bool × AutoIncCache
  cache_del c key = elim c.client [
    | none ↦ (false, c)
    | some s ↦ (true, record c { client = some (lib.del_kv s (full_key c key)) })
  ]

  unfoldable pub invalidate_all : AutoIncCache → AutoIncCache
  invalidate_all c = record c { counter = (c.counter + 1) % 2 ^ 32 }

unfoldable pub pack_values : List (List ℕ) → List ℕ
pack_values [] = []
pack_values (v ∷ vs) = v ++ pack_values vs

-- The loop of `unpack_values` on what is left of the text: one round for a part.
unfoldable pub unpack_loop : ℕ → List ℕ → ℕ → List (List ℕ)
unpack_loop zero packed size = []
unpack_loop (suc fuel) packed size = elim (ltb 0 (length packed)) [
  | true ↦ take size packed ∷ unpack_loop fuel (drop size packed) size
  | false ↦ []
]

-- For a size other than 0, where each round takes a byte at least. With 0 the source's loop does not
-- end.
unfoldable pub unpack_values : List ℕ → ℕ → List (List ℕ)
unpack_values packed max_field_size = unpack_loop (length packed) packed max_field_size
