-- ===== src/Backend/Leveldb/Frame.antt =====
-- What a store in the cache leaves alone.
use cachelib_archive.Base.{
  ℕ, ◌≡◌, refl, inl, inr, List, length, ltb, arith, Bool-cases, Option-cases,
}
use cachelib_archive.Backend.{Client, AutoIncCache, cache_set, full_key, max_value}
use cachelib_archive.Backend.Leveldb.{Database, LeveldbBackend, store_read}

module _ (lib : Client) (db : Database) where
  pub store_read-disk :
      (b : LeveldbBackend lib db) (t v : List ℕ) → (store_read lib db b t v).disk ≡ b.disk
  unfolding store_read
  store_read-disk b t v = elim (Bool-cases b.cache_enabled) [
    | inl on ↦ rw (on, store_read) refl
    | inr off ↦ rw (off, store_read) refl
  ]

  pub full_key-set :
      (c : AutoIncCache lib) (k v t : List ℕ)
      → full_key lib (cache_set lib c k v).1 t ≡ full_key lib c t
  unfolding full_key cache_set
  full_key-set c k v t = elim (Bool-cases (ltb max_value (length v))) [
    | inl big ↦ ground arith
    | inr fits ↦ elim (Option-cases c.client) [
      | inl null ↦ ground arith
      | inr (s, known) ↦ ground arith
    ]
  ]

  pub full_key-store_read :
      (b : LeveldbBackend lib db) (t v k : List ℕ)
      → full_key lib (store_read lib db b t v).cache k ≡ full_key lib b.cache k
  unfolding store_read
  full_key-store_read b t v k = elim (Bool-cases b.cache_enabled) [
    | inl on ↦ rw (on, store_read) (full_key-set b.cache t v k)
    | inr off ↦ rw (off, store_read) refl
  ]
