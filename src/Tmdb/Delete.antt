-- ===== src/Tmdb/Delete.antt =====
-- `_db_delete` of tmdb/src/tmdb.cpp, with the offsets and widths that it writes.
use cachelib_archive.Base.{ℕ, ◌+◌, ◌*◌, true, Option, none, some, List, ◌==◌, if◌then◌else◌}
use cachelib_archive.Stdio.{Stream, fseek_set, fseek_cur, fread, fwrite}
use cachelib_archive.Stdio.Ints.{le_bytes, le_value}
use cachelib_archive.Tmdb.Layout.{
  tdb_int_size, tdb_prt_size, tdb_max_key_len, tdb_index_header_len, tdb_flag_del,
}
use cachelib_archive.Tmdb.Handle.{
  Run, returns, exits, ◌>>=◌, Tdb, Status, tdb_success, tdb_ok, tdb_error, KeyStatus, key_first,
  key_notexist, key_exist, key_error, unlock,
}
use cachelib_archive.Tmdb.Find.{db_find_and_lock}
use cachelib_archive.Tmdb.Store.{is_bad_key}

-- Sets the record's flag, and moves on to where a next pointer is taken to be.
unfoldable pub mark_deleted : Tdb → Stream
mark_deleted db =
    fseek_cur (fwrite (fseek_set db.idx db.idxoff) (le_bytes tdb_int_size tdb_flag_del))
      (tdb_max_key_len + tdb_prt_size)

-- Where the four bytes that were read are written to: over a bucket's pointer for the first key of
-- a chain, and behind the record otherwise.
unfoldable pub unlink_pos : Tdb → ℕ
unlink_pos db =
    if db.key_ptr_pos == db.idxoff
    then tdb_index_header_len + db.hash * tdb_int_size
    else db.preidx + tdb_int_size + tdb_max_key_len + tdb_prt_size

unfoldable pub delete_existing : Tdb → Run (Status × Tdb)
unfolding mark_deleted unlink_pos
delete_existing db = elim (fread (mark_deleted db) tdb_prt_size) [
  | none ↦ exits
  | some (key_next_ptr, s) ↦ returns (
    tdb_success,
    unlock (record db {
      idx = fwrite (fseek_set s (unlink_pos db)) (le_bytes tdb_prt_size (le_value key_next_ptr));
    }),
  )
]

unfoldable pub delete_found : KeyStatus × Tdb → Run (Status × Tdb)
unfolding delete_existing
delete_found (key_error, db) = returns (tdb_error, db)
delete_found (key_first, db) = returns (tdb_ok, db)
delete_found (key_notexist, db) = returns (tdb_ok, db)
delete_found (key_exist, db) = delete_existing db

unfoldable pub db_delete : ℕ → Tdb → Option (List ℕ) → Run (Status × Tdb)
unfolding delete_found is_bad_key
db_delete fuel db none = returns (tdb_error, db)
db_delete fuel db (some key) =
    if is_bad_key key
    then returns (tdb_error, db)
    else do found ← db_find_and_lock fuel db key true; delete_found found
