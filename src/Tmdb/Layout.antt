-- ===== src/Tmdb/Layout.antt =====
-- The file layout of tmdb/src/tmdb.h: the constants, and the key and data records as bytes. An
-- `int` takes four bytes, an `off_t` eight, and `tdb_key_record_t` four bytes of padding.
use cachelib_archive.Base.{ℕ, ◌+◌, ◌-◌, List, ◌++◌, length, take, drop, set, replicate}
use cachelib_archive.Stdio.Ints.{le_bytes, le_value}
use cachelib_archive.CString.{cstr, rtrim}

abbrev pub tdb_int_size : ℕ
tdb_int_size = 4

abbrev pub tdb_prt_size : ℕ
tdb_prt_size = 4

abbrev pub tdb_off_size : ℕ
tdb_off_size = 8

abbrev pub tdb_max_hash_bucket : ℕ
tdb_max_hash_bucket = 655360

abbrev pub tdb_max_key_len : ℕ
tdb_max_key_len = 64

abbrev pub tdb_max_record_len : ℕ
tdb_max_record_len = 4194304

abbrev pub tdb_index_header_len : ℕ
tdb_index_header_len = 256

abbrev pub tdb_data_header_len : ℕ
tdb_data_header_len = 256

abbrev pub tdb_flag_del : ℕ
tdb_flag_del = 1

abbrev pub tdb_flag_nor : ℕ
tdb_flag_nor = 0

-- `sizeof(struct tdb_key_record_t)`.
abbrev pub sizeof_key_record : ℕ
sizeof_key_record = 88

-- `sizeof(struct tdb_data_record_t)`, with its `char *`.
abbrev pub sizeof_data_record : ℕ
sizeof_data_record = 24

-- The key and the padding behind it, as `_db_store` fills them: `bzero` on the array, the key's
-- bytes, and a NUL behind them, which falls on the padding where the key has 64 bytes. `pad` is
-- what `malloc` left there.
unfoldable pub key_area : List ℕ → List ℕ → List ℕ
key_area pad key = set (key ++ (replicate (tdb_max_key_len - length key) 0 ++ pad)) (length key) 0

unfoldable pub key_record : ℕ → List ℕ → ℕ → ℕ → List ℕ
key_record flag area data_ptr next_ptr =
    le_bytes tdb_int_size flag
    ++ (area ++ (le_bytes tdb_off_size data_ptr ++ le_bytes tdb_off_size next_ptr))

-- `rtrim(key_record->key)` on a record that was read: the string it returns, and the record with
-- the NUL that it writes.
unfoldable pub trimmed_key : List ℕ → List ℕ
trimmed_key buf = rtrim (cstr (drop 4 buf))

unfoldable pub trimmed_record : List ℕ → List ℕ
trimmed_record buf = set buf (4 + length (trimmed_key buf)) 0

-- `key_record->data_ptr` and `key_record->next_ptr`.
unfoldable pub data_ptr_of : List ℕ → ℕ
data_ptr_of buf = le_value (take 8 (drop 72 buf))

unfoldable pub next_ptr_of : List ℕ → ℕ
next_ptr_of buf = le_value (take 8 (drop 80 buf))
