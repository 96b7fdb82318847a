-- ===== src/Backend/Disk/Tests.antt =====
-- A backend over the files that `_db_create` makes.
use cachelib_archive.Base.{
  ℕ, ◌+◌, ◌≤◌, ◌≡◌, refl, true, false, Option, none, some, List, [], ◌∷◌, arith,
}
use cachelib_archive.CString.{str_eq}
use cachelib_archive.Tmdb.Handle.{returns, undefined, Tdb, tdb_insert, lock_un}
use cachelib_archive.Tmdb.Store.{db_store}
use cachelib_archive.Tmdb.Map.{Represents}
use cachelib_archive.Tmdb.Map.Lookup.{BothLocks}
use cachelib_archive.Backend.Numbers.{to_string-IsKey}
use cachelib_archive.Tmdb.Open.{db_create, db_alloc}
use cachelib_archive.Tmdb.Map.Create.{
  created_idx_size, created_dat_size, created-Represents, empty_map,
}
use cachelib_archive.Tmdb.Map.Insert.{insert_map, insert_status, db_store-insert}
use cachelib_archive.Backend.{to_string, int_string, digits_of, full_key}
use cachelib_archive.Backend.Tests.{one_slot}
use cachelib_archive.Backend.Disk.{TmdbBackend, tmdb_insert_record, tmdb_read_record}
use cachelib_archive.Backend.Disk.Coherence.{
  Stands, CanSend, tmdb_insert_record-Stands, tmdb_read_record-Stands, tmdb_read_record-missing,
}

abbrev backend : TmdbBackend one_slot
backend = record {
  cache = record { counter = 0; subpool_name = b't' ∷ []; client = some none };
  cache_enabled = true;
  hit_count = 0;
  db = db_create db_alloc;
}

backend-Stands : Stands one_slot backend empty_map
backend-Stands = (created-Represents, λ s t v e h. ground arith)

abbrev value : List ℕ
value = b'v' ∷ b'w' ∷ []

value-CanSend : CanSend one_slot backend (to_string 7) value
unfolding full_key int_string to_string digits_of
value-CanSend = ground arith

abbrev seven : List ℕ → Option (List ℕ)
seven = insert_map empty_map (to_string 7) value

abbrev pad : List ℕ
pad = 7 ∷ 7 ∷ 7 ∷ 7 ∷ []

seven_has : seven (to_string 7) ≡ some value
unfolding str_eq to_string digits_of
seven_has = refl

abbrev stored :
    (db : Tdb) × (db_store 1 pad backend.db (some (to_string 7)) (some value) tdb_insert
      ≡ returns (insert_status none, db))
    × Represents db seven
    × BothLocks lock_un db
    × (db.idx.size ≤ backend.db.idx.size + 88)
stored =
    db_store-insert 1 pad backend.db empty_map (to_string 7) value created-Represents
      (to_string-IsKey 7 (omega arith)) value-CanSend.1 (omega arith) refl
      (omega (arith, created_idx_size)) (omega (arith, created_idx_size))
      (omega (arith, created_dat_size))

abbrev holding : TmdbBackend one_slot
holding = record backend { db = stored.0 }

tmdb_read_record-Stands_example :
    (b : TmdbBackend one_slot) × (tmdb_read_record one_slot 1 holding 7 ≡ returns (value ∷ [], b))
    × Stands one_slot b seven
tmdb_read_record-Stands_example =
    tmdb_read_record-Stands one_slot 1 holding seven 7 value (stored.2, λ s t v e h. ground arith)
      (omega arith) seven_has value-CanSend (omega (arith, stored.4, created_idx_size))

tmdb_insert_record-Stands_example :
    (b : TmdbBackend one_slot) × (tmdb_insert_record one_slot 1 pad backend 7 (value ∷ [])
      ≡ returns (true, b))
    × Stands one_slot b seven
tmdb_insert_record-Stands_example =
    tmdb_insert_record-Stands one_slot 1 pad backend empty_map 7 value [] backend-Stands
      (omega arith) refl value-CanSend refl (omega (arith, created_idx_size))
      (omega (arith, created_idx_size)) (omega (arith, created_dat_size))

abbrev uncached : TmdbBackend one_slot
uncached = record backend { cache_enabled = false }

tmdb_read_record-missing_example : tmdb_read_record one_slot 1 uncached 7 ≡ undefined
tmdb_read_record-missing_example =
    tmdb_read_record-missing one_slot 1 uncached empty_map 7 created-Represents refl (omega arith)
      refl (omega (arith, created_idx_size))
