-- ===== src/Backend/Disk.antt =====
-- backend/src/backend/TmdbBackend.cpp: the backend that keeps its records in tmdb.
use cachelib_archive.Base.{
  ℕ, ◌+◌, Bool, true, false, some, List, [], ◌∷◌, ltb, if◌then◌else◌, length,
}
use cachelib_archive.Tmdb.Handle.{Run, returns, undefined, ◌>>=◌, Tdb, Status, tdb_insert}
use cachelib_archive.Tmdb.Fetch.{tdb_store, tdb_fetch}
use cachelib_archive.Backend.{Client, AutoIncCache, to_string, cache_set, cache_get}
pub mod Coherence
mod Tests

module _ (lib : Client) where
  pub record TmdbBackend : Type 0 where
    pub cache : AutoIncCache lib
    pub cache_enabled : Bool
    pub hit_count : ℕ
    pub db : Tdb

  unfoldable pub tmdb_keep : TmdbBackend → List ℕ → List ℕ → TmdbBackend
  tmdb_keep b key value =
      if b.cache_enabled then record b { cache = (cache_set lib b.cache key value).1 } else b

  unfoldable pub after_store : TmdbBackend → Status × Tdb → Run (Bool × TmdbBackend)
  after_store b (status, db) = returns (true, record b { db = db })

  -- `values[0]` of an empty vector is undefined. The status of the store is not looked at.
  unfoldable pub tmdb_insert_record :
      ℕ → List ℕ → TmdbBackend → ℕ → List (List ℕ) → Run (Bool × TmdbBackend)
  tmdb_insert_record fuel pad b key [] = undefined
  tmdb_insert_record fuel pad b key (value ∷ values) =
      let kept = tmdb_keep b (to_string key) value in
      do
        stored ← tdb_store fuel pad kept.db (some (to_string key)) (some value) tdb_insert
        after_store kept stored

  unfoldable pub after_fetch : TmdbBackend → ℕ → List ℕ × Tdb → Run (List (List ℕ) × TmdbBackend)
  after_fetch b key (value, db) =
      returns (value ∷ [], tmdb_keep (record b { db = db }) (to_string key) value)

  unfoldable pub tmdb_fetch_record : ℕ → TmdbBackend → ℕ → Run (List (List ℕ) × TmdbBackend)
  tmdb_fetch_record fuel b key = do
    got ← tdb_fetch fuel b.db (some (to_string key))
    after_fetch b key got

  -- The results; the function itself always gives true.
  unfoldable pub tmdb_read_record : ℕ → TmdbBackend → ℕ → Run (List (List ℕ) × TmdbBackend)
  tmdb_read_record fuel b key = elim b.cache_enabled [
    | false ↦ tmdb_fetch_record fuel b key
    | true ↦
        let r = cache_get lib b.cache (to_string key) in
        elim (ltb 0 (length r.0)) [
          | true ↦ returns (r.0 ∷ [], record b { cache = r.1; hit_count = b.hit_count + 1 })
          | false ↦ tmdb_fetch_record fuel (record b { cache = r.1 }) key
        ]
  ]
