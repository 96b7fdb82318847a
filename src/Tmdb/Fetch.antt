-- ===== src/Tmdb/Fetch.antt =====
-- `_db_fetch`, `_db_rewind`, `_db_nextrec` and the outer functions of tmdb/src/tmdb.cpp, which is
-- built without `KID_CACHELIB`.
use cachelib_archive.Base.{
  ℕ, ◌+◌, ◌-◌, ◌*◌, ◌==◌, ltb, length, false, Option, none, some, List, if◌then◌else◌,
}
use cachelib_archive.Stdio.{Stream, fseek_set, fread}
use cachelib_archive.Stdio.Ints.{le_value}
use cachelib_archive.CString.{cstr}
use cachelib_archive.Tmdb.Layout.{tdb_int_size, tdb_max_record_len, tdb_index_header_len}
use cachelib_archive.Tmdb.Handle.{
  Run, returns, exits, undefined, ◌>>=◌, Tdb, Status, Mode, KeyStatus, key_first, key_notexist,
  key_exist, key_error, unlock,
}
use cachelib_archive.Tmdb.Find.{db_find_and_lock}
use cachelib_archive.Tmdb.Store.{is_bad_key, db_store}
use cachelib_archive.Tmdb.Delete.{db_delete}

-- The bytes of the data record, in `dat_buf`, and the string that they start with. The buffer has
-- `tdb_max_record_len` bytes, which `calloc` cleared: it is undefined to read more from the file,
-- and to take the length of a string that fills it. A file that ends before is an error.
unfoldable pub read_string : Tdb → Stream → ℕ → Run (Option (List ℕ) × Tdb)
read_string db s len = elim (fread s len) [
  | none ↦ if ltb tdb_max_record_len (s.size - s.pos) then undefined else exits
  | some (buf, s') ↦
      if ltb tdb_max_record_len len
      then undefined
      else if length (cstr buf) == tdb_max_record_len
      then undefined
      else returns (some (cstr buf), unlock (record db { dat = s' }))
]

-- The data record at `datoff`: its length and its bytes.
unfoldable pub read_data : Tdb → Run (Option (List ℕ) × Tdb)
unfolding read_string
read_data db = elim (fread (fseek_set db.dat (db.datoff + tdb_int_size)) tdb_int_size) [
  | none ↦ exits
  | some (len, s) ↦ read_string db s (le_value len)
]

-- Only a key that was found leads to the call of `flock` that gives the locks back.
unfoldable pub fetch_found : KeyStatus × Tdb → Run (Option (List ℕ) × Tdb)
unfolding read_data
fetch_found (key_error, db) = returns (none, db)
fetch_found (key_first, db) = returns (none, db)
fetch_found (key_notexist, db) = returns (none, db)
fetch_found (key_exist, db) = read_data db

-- The result `none` is NULL.
unfoldable pub db_fetch : ℕ → Tdb → Option (List ℕ) → Run (Option (List ℕ) × Tdb)
unfolding fetch_found is_bad_key
db_fetch fuel db none = returns (none, db)
db_fetch fuel db (some key) =
    if is_bad_key key
    then returns (none, db)
    else do found ← db_find_and_lock fuel db key false; fetch_found found

unfoldable pub db_rewind : Tdb → Tdb
db_rewind db = unlock (record db {
  idx = fseek_set db.idx (tdb_index_header_len + db.nhash * tdb_int_size);
  dat = fseek_set db.dat 0;
})

unfoldable pub db_nextrec : Tdb → Option (List ℕ)
db_nextrec db = none

-- A `std::string` is built from the result, also where that is NULL.
unfoldable pub string_of : Option (List ℕ) × Tdb → Run (List ℕ × Tdb)
string_of (none, db) = undefined
string_of (some s, db) = returns (s, db)

unfoldable pub tdb_fetch : ℕ → Tdb → Option (List ℕ) → Run (List ℕ × Tdb)
unfolding db_fetch string_of
tdb_fetch fuel db key = do got ← db_fetch fuel db key; string_of got

unfoldable pub tdb_store :
    ℕ → List ℕ → Tdb → Option (List ℕ) → Option (List ℕ) → Mode → Run (Status × Tdb)
unfolding db_store
tdb_store fuel pad db key value mode = db_store fuel pad db key value mode

unfoldable pub tdb_delete : ℕ → Tdb → Option (List ℕ) → Run (Status × Tdb)
unfolding db_delete
tdb_delete fuel db key = db_delete fuel db key

unfoldable pub tdb_rewind : Tdb → Tdb
unfolding db_rewind
tdb_rewind db = db_rewind db

unfoldable pub tdb_nextrec : Tdb → Option (List ℕ)
unfolding db_nextrec
tdb_nextrec db = db_nextrec db
