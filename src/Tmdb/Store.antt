-- ===== src/Tmdb/Store.antt =====
-- `_write_data_record` and `_db_store` of tmdb/src/tmdb.cpp.
use cachelib_archive.Base.{
  ℕ, ◌+◌, ◌-◌, Bool, true, false, not, ◌||◌, Option, some, List, ltb, ◌==◌, if◌then◌else◌, length,
}
use cachelib_archive.Stdio.{Stream, fseek_set, fseek_end, ftell, fwrite}
use cachelib_archive.Stdio.Ints.{le_bytes}
use cachelib_archive.Tmdb.Layout.{
  tdb_int_size, tdb_off_size, tdb_max_key_len, tdb_max_record_len, tdb_data_header_len,
  tdb_flag_nor, sizeof_data_record, key_area, key_record,
}
use cachelib_archive.Tmdb.Handle.{
  Run, returns, ◌>>=◌, Tdb, Status, tdb_success, tdb_ok, tdb_error, Mode, tdb_insert, tdb_replace,
  other, KeyStatus, key_first, key_notexist, key_exist, key_error, unlock,
}
use cachelib_archive.Tmdb.Find.{db_find_and_lock, bucket_pos}

-- The four writes of a data record: flag, length, data, next pointer.
unfoldable pub write_data_record : Stream → List ℕ → Stream
write_data_record s value =
    let s1 = fwrite s (le_bytes tdb_int_size tdb_flag_nor) in
    let s2 = fwrite s1 (le_bytes tdb_int_size (length value)) in
    let s3 = fwrite s2 value in fwrite s3 (le_bytes tdb_off_size 0)

-- Where the next data record goes: the end of the data file.
unfoldable pub record_pos : Tdb → ℕ
record_pos db = ftell (fseek_end db.dat 0)

-- "Save record data": all records but the first are linked from the one before.
unfoldable pub save_data : Tdb → List ℕ → Tdb
unfolding record_pos write_data_record
save_data db value =
    let end = fseek_end db.dat 0 in
    if ltb (record_pos db) (tdb_data_header_len + sizeof_data_record)
    then record db { dat = write_data_record end value }
    else record db {
      dat =
          write_data_record
            (fwrite (fseek_end db.dat tdb_off_size) (le_bytes tdb_off_size (record_pos db))) value;
    }

-- A new key record goes to the end of the index file, and its offset into the place `link`.
unfoldable pub append_key : Tdb → List ℕ → ℕ → ℕ → Tdb
append_key db area pos link =
    let end = fseek_end db.idx 0 in
    let s = fwrite end (key_record 0 area pos 0) in
    record db { idx = fwrite (fseek_set s link) (le_bytes tdb_off_size (ftell end)) }

-- An existing key's record is given the offset of the new data.
unfoldable pub replace_data_ptr : Tdb → ℕ → Tdb
replace_data_ptr db pos = record db {
  idx =
      fwrite (fseek_set db.idx (db.idxoff + tdb_int_size + tdb_max_key_len))
        (le_bytes tdb_off_size pos);
}

-- "Save index key".
unfoldable pub save_key : KeyStatus → Tdb → List ℕ → ℕ → Status × Tdb
unfolding append_key replace_data_ptr
save_key key_first db area pos = (tdb_success, unlock (append_key db area pos (bucket_pos db.hash)))
save_key key_notexist db area pos =
    (tdb_success, unlock (append_key db area pos (db.preidx - tdb_off_size)))
save_key key_exist db area pos = (tdb_success, unlock (replace_data_ptr db pos))
save_key key_error db area pos = (tdb_ok, db)

-- The mode forbids the write, given what the search found.
unfoldable pub is_refused : Mode → KeyStatus → Bool
is_refused tdb_insert key_exist = true
is_refused tdb_replace key_first = true
is_refused tdb_replace key_notexist = true
is_refused _ _ = false

unfoldable pub store_found : List ℕ → Mode → KeyStatus × Tdb → List ℕ → List ℕ → Status × Tdb
unfolding save_data save_key is_refused record_pos
store_found pad mode (key_error, db) key value = (tdb_error, db)
store_found pad mode (ret, db) key value =
    if is_refused mode ret
    then (tdb_ok, unlock db)
    else save_key ret (save_data db value) (key_area pad key) (record_pos db)

abbrev pub is_known : Mode → Bool
is_known other = false
is_known _ = true

-- A key of 1 to 64 bytes.
unfoldable pub is_bad_key : List ℕ → Bool
is_bad_key key = length key == 0 || ltb tdb_max_key_len (length key)

-- The checks of the mode, the key's length and the value's length.
unfoldable pub is_bad_store : Mode → List ℕ → List ℕ → Bool
unfolding is_bad_key
is_bad_store mode key value =
    not (is_known mode) || (is_bad_key key || ltb tdb_max_record_len (length value))

-- `none` stands for NULL. `fuel` bounds the walk along the chain, and `pad` is the uninitialised
-- padding of the key record that `malloc` returns.
unfoldable pub db_store :
    ℕ → List ℕ → Tdb → Option (List ℕ) → Option (List ℕ) → Mode → Run (Status × Tdb)
unfolding store_found is_bad_store
db_store fuel pad db (some key) (some value) mode =
    if is_bad_store mode key value then returns (tdb_error, db) else do
      found ← db_find_and_lock fuel db key true
      returns (store_found pad mode found key value)
db_store fuel pad db _ _ mode = returns (tdb_error, db)
