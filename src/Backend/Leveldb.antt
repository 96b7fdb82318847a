-- ===== src/Backend/Leveldb.antt =====
-- backend/src/backend/LevelDBBackend.cpp with `Backend::enable_cache` of
-- backend/src/backend/backend.cpp. LevelDB is a parameter.
use cachelib_archive.Base.{
  ℕ, zero, suc, ◌+◌, ◌-◌, ◌<◌, ◌≤◌, ◌≡◌, ◌≢◌, Bool, true, false, Option, none, some, List, [], ◌∷◌,
  ◌++◌, length, ltb, if◌then◌else◌,
}
use cachelib_archive.Backend.{
  Client, AutoIncCache, to_string, initialize, set_subpool, cache_set, cache_get, full_key,
  pack_values, unpack_values,
}
pub mod Coherence
pub mod Frame
pub mod Loaded

-- What the backend uses of LevelDB: `put` may fail, and then changes nothing.
pub record Database : Type 1 where
  pub State : Type 0
  pub get : State → List ℕ → Option (List ℕ)
  pub put : State → List ℕ → List ℕ → Bool × State
  pub delete : State → List ℕ → State
  pub get_put : (s : State) (k v : List ℕ) → (put s k v).0 ≡ true → get (put s k v).1 k ≡ some v
  pub get_put_ne : (s : State) (k v k' : List ℕ) → k' ≢ k → get (put s k v).1 k' ≡ get s k'

abbrev pub thread_name : List ℕ
thread_name = b't' ∷ b'h' ∷ b'r' ∷ b'e' ∷ b'a' ∷ b'd' ∷ b'_' ∷ []

module _ (lib : Client) (db : Database) where
  pub record LeveldbBackend : Type 0 where
    pub cache : AutoIncCache lib
    pub thread_id : ℕ
    pub subpool_name : List ℕ
    pub cache_enabled : Bool
    pub hit_count : ℕ
    pub disk : db.State

  unfoldable pub create_database : LeveldbBackend → Bool × LeveldbBackend
  create_database b = (true, b)

  -- `none` is the exception "Cache already enabled".
  unfoldable pub enable_cache : LeveldbBackend → lib.State → Option LeveldbBackend
  enable_cache b client =
      if b.cache_enabled
      then none
      else some (record b {
        cache_enabled = true;
        cache =
            set_subpool lib (initialize lib b.cache client) (thread_name ++ to_string b.thread_id);
        subpool_name = thread_name ++ to_string b.thread_id;
      })

  unfoldable pub store_read : LeveldbBackend → List ℕ → List ℕ → LeveldbBackend
  store_read b key value =
      if b.cache_enabled then record b { cache = (cache_set lib b.cache key value).1 } else b

  unfoldable pub read_disk : ℕ → LeveldbBackend → List ℕ → Option (List (List ℕ)) × LeveldbBackend
  read_disk size b key = elim (db.get b.disk key) [
    | none ↦ (none, b)
    | some value ↦ (some (unpack_values value size), store_read b key value)
  ]

  -- The result `none` is false, with the results left alone.
  unfoldable pub read_record : ℕ → LeveldbBackend → ℕ → Option (List (List ℕ)) × LeveldbBackend
  read_record size b key = elim b.cache_enabled [
    | false ↦ read_disk size b (to_string key)
    | true ↦
        let r = cache_get lib b.cache (to_string key) in
        elim (ltb 0 (length r.0)) [
          | true ↦
              (some (unpack_values r.0 size), record b { cache = r.1; hit_count = b.hit_count + 1 })
          | false ↦ read_disk size (record b { cache = r.1 }) (to_string key)
        ]
  ]

  unfoldable pub insert_record : LeveldbBackend → ℕ → List (List ℕ) → Bool × LeveldbBackend
  insert_record b key values =
      let value = pack_values values in
      let r = db.put b.disk (to_string key) value in
      (r.0, store_read (record b { disk = r.1 }) (to_string key) value)

  unfoldable pub delete_from : db.State → ℕ → ℕ → db.State
  delete_from s zero i = s
  delete_from s (suc n) i = delete_from (db.delete s (to_string i)) n (i + 1)

  -- The records from `max_records` to the next key.
  unfoldable pub clean_up : ℕ → ℕ → LeveldbBackend → LeveldbBackend
  clean_up max_records next_insert_key b = record b {
    disk = delete_from b.disk (next_insert_key - max_records) max_records;
  }
