-- ===== src/Tmdb/Tests.antt =====
-- Runs of the database on small inputs, and the theorems on it at such inputs.
use cachelib_archive.Base.{
  ℕ, ◌+◌, ◌≤◌, ◌<◌, ◌^◌, Bool-cases, sym, ap, ◌≡◌, refl, inl, inr, Option, none, some, List, [],
  ◌∷◌, arith,
}
use cachelib_archive.Stdio.{fread, put, write_at, fwrite}
use cachelib_archive.Stdio.Ints.{le_bytes, le_value}
use cachelib_archive.CString.{cstr, is_space, str_eq, rtrim_loop, rtrim}
use cachelib_archive.Tmdb.Layout.{
  key_area, key_record, trimmed_key, trimmed_record, data_ptr_of, next_ptr_of,
}
use cachelib_archive.Tmdb.Find.{db_find_and_lock, after_walk, find_in_bucket, find_loop}
use cachelib_archive.Tmdb.Handle.{
  db_hash, unlock, hash_loop, widen_char, Run, returns, ◌>>=◌, Tdb, lock_un, Status, tdb_success,
  tdb_insert, tdb_replace,
}
use cachelib_archive.Tmdb.Store.{
  db_store, append_key, is_bad_key, is_bad_store, is_refused, record_pos, replace_data_ptr,
  save_data, save_key, store_found, write_data_record,
}
use cachelib_archive.Tmdb.Delete.{
  db_delete, delete_found, delete_existing, mark_deleted, unlink_pos,
}
use cachelib_archive.Tmdb.Fetch.{db_fetch, fetch_found, read_data, read_string}
use cachelib_archive.Tmdb.Open.{
  mode_r, mode_c, mode_w, read_write, read_only, handle_of, db_open, db_create, db_alloc,
}
use cachelib_archive.Tmdb.Records.{IsKey}
use cachelib_archive.Tmdb.Map.{Represents, buckets}
use cachelib_archive.Tmdb.Map.Create.{
  created_idx_size, created_dat_size, created-Represents, db_open-empty, empty_map,
}
use cachelib_archive.Tmdb.Map.Insert.{db_store-insert, insert_map, insert_status}
use cachelib_archive.Tmdb.Map.Reopened.{db_open-stored}
use cachelib_archive.Tmdb.Map.Modes.{db_store-mode, store_map}
use cachelib_archive.Tmdb.Map.Deleted.{db_delete-fetch, IsAlone}
use cachelib_archive.CString.Laws.{str_eq_iff}
use cachelib_archive.Tmdb.Map.Lookup.{db_fetch-lookup, lock_after, BothLocks}

abbrev pad : List ℕ
pad = 7 ∷ 7 ∷ 7 ∷ 7 ∷ []

abbrev a_key : List ℕ
a_key = b'a' ∷ []

abbrev a_value : List ℕ
a_value = b'v' ∷ b'w' ∷ []

a_key-IsKey : IsKey a_key
unfolding is_space
a_key-IsKey = record {
  some_byte = omega arith;
  fits = omega arith;
  text = omega arith;
  trimmed = refl;
}

abbrev created : Tdb
created = db_create db_alloc

abbrev one_key : List ℕ → Option (List ℕ)
one_key = insert_map empty_map a_key a_value

-- The created database after one insertion.
abbrev inserted :
    (db : Tdb) × (db_store 1 pad created (some a_key) (some a_value) tdb_insert
      ≡ returns (insert_status none, db))
    × Represents db one_key
    × BothLocks lock_un db
    × (db.idx.size ≤ created.idx.size + 88)
inserted =
    db_store-insert 1 pad created empty_map a_key a_value created-Represents a_key-IsKey
      (omega arith) (omega arith) refl (omega (arith, created_idx_size))
      (omega (arith, created_idx_size)) (omega (arith, created_dat_size))

db_store-insert_example :
    (db : Tdb) × (db_store 1 pad created (some a_key) (some a_value) tdb_insert
      ≡ returns (tdb_success, db))
    × Represents db one_key
    × BothLocks lock_un db
    × (db.idx.size ≤ created.idx.size + 88)
db_store-insert_example =
    db_store-insert 1 pad created empty_map a_key a_value created-Represents a_key-IsKey
      (omega arith) (omega arith) refl (omega (arith, created_idx_size))
      (omega (arith, created_idx_size)) (omega (arith, created_dat_size))

db_fetch-lookup_example :
    (db : Tdb) × (db_fetch 1 inserted.0 (some a_key) ≡ returns (some a_value, db))
    × Represents db one_key
    × (db.idx_lock ≡ lock_after (one_key a_key))
    × (db.dat_lock ≡ lock_after (one_key a_key))
unfolding str_eq
db_fetch-lookup_example =
    db_fetch-lookup 1 inserted.0 one_key a_key inserted.2 a_key-IsKey
      (omega (arith, inserted.4, created_idx_size))

db_open-empty_example :
    (db : Tdb) × (db_open none none mode_w ≡ returns (read_write db)) × Represents db empty_map
db_open-empty_example = db_open-empty none none mode_w (inl refl)

db_open-stored_example :
    (db db' db'' : Tdb) × (db_store 1 pad created (some a_key) (some a_value) tdb_insert
      ≡ returns (tdb_success, db))
    × (db_open (some db.idx.file) (some db.dat.file) mode_r ≡ returns (read_only db'))
    × (db_fetch 2 db' (some a_key) ≡ returns (some a_value, db''))
db_open-stored_example =
    db_open-stored 1 pad created empty_map a_key a_value mode_r created-Represents a_key-IsKey
      (omega arith) (omega arith) refl (omega (arith, created_idx_size))
      (omega (arith, created_idx_size)) (omega (arith, created_dat_size)) refl (inl refl)

a_key-IsAlone : IsAlone one_key a_key
a_key-IsAlone k v is there same = elim (Bool-cases (str_eq a_key k)) [
  | inl hit ↦ sym ((str_eq_iff a_key k).0 hit)
  | inr miss ↦ let e : none ≡ some v = rw miss at there in cc
]

a_key_hash : 0 < db_hash buckets a_key
unfolding db_hash hash_loop widen_char
a_key_hash = omega arith

db_delete-fetch_example :
    (db' : Tdb) × (db_delete 1 inserted.0 (some a_key) ≡ returns (tdb_success, db'))
    × ((db'' : Tdb) × (db_fetch 1 db' (some a_key) ≡ returns (some a_value, db'')))
unfolding str_eq
db_delete-fetch_example =
    db_delete-fetch 0 inserted.0 one_key a_key a_value inserted.2 a_key-IsKey refl (omega arith)
      a_key-IsAlone a_key_hash

-- All that the runs below go through.
machine : Unit {0}
unfolding db_open db_store db_fetch db_delete db_find_and_lock fread db_hash fwrite write_at
    le_bytes le_value put unlock key_record key_area str_eq trimmed_key rtrim rtrim_loop cstr
    is_space fetch_found read_data read_string after_walk find_in_bucket find_loop hash_loop
    widen_char data_ptr_of next_ptr_of trimmed_record db_alloc db_create append_key is_bad_key
    is_bad_store is_refused record_pos replace_data_ptr save_data save_key store_found
    write_data_record delete_found delete_existing mark_deleted unlink_pos
machine = tt

-- The size of the data file behind an insertion.
abbrev dat_size_of : Run (Status × Tdb) → ℕ
dat_size_of (returns (st, db)) = db.dat.size
dat_size_of _ = 0

inserted_dat_size :
    dat_size_of (db_store 1 pad created (some a_key) (some a_value) tdb_insert) ≡ 274
unfolding machine
inserted_dat_size = refl

inserted_small : inserted.0.dat.size < 2 ^ 32
inserted_small = omega (arith, inserted_dat_size, ap dat_size_of inserted.1)

-- The store of another value under the key.
db_store-mode_example :
    (db : Tdb) × (db_store 1 pad inserted.0 (some a_key) (some (b'x' ∷ [])) tdb_replace
      ≡ returns (tdb_success, db))
    × Represents db (store_map tdb_replace (some a_value) one_key a_key (b'x' ∷ []))
unfolding str_eq
db_store-mode_example =
    db_store-mode 1 pad inserted.0 one_key a_key (b'x' ∷ []) tdb_replace inserted.2 a_key-IsKey
      (omega arith) (omega arith) (omega arith) refl (omega (arith, inserted.4, created_idx_size))
      (omega (arith, inserted.4, created_idx_size)) inserted_small

stored_then_read : Run (Option (List ℕ))
stored_then_read = do
  opened ← db_open none none mode_c
  let db = handle_of opened
  (_, db) ← db_store 5 pad db (some a_key) (some a_value) tdb_insert
  (r, db) ← db_fetch 5 db (some a_key)
  returns r

stored_then_read_gives : stored_then_read ≡ returns (some a_value)
unfolding stored_then_read machine
stored_then_read_gives = refl
