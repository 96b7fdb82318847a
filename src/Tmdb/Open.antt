-- ===== src/Tmdb/Open.antt =====
-- `_db_alloc`, `_db_create`, `_db_open` and `tdb_open` of tmdb/src/tmdb.cpp.
use cachelib_archive.Base.{ℕ, ◌+◌, ◌-◌, ◌*◌, Option, none, some, List, [], ◌∷◌, ◌++◌, length}
use cachelib_archive.Stdio.{File, Stream, empty_stream, fseek_set, fwrite}
use cachelib_archive.Stdio.Ints.{le_bytes}
use cachelib_archive.Tmdb.Layout.{
  tdb_int_size, tdb_off_size, tdb_max_hash_bucket, tdb_index_header_len, tdb_data_header_len,
}
use cachelib_archive.Tmdb.Handle.{Run, returns, exits, ◌>>=◌, Tdb, lock_un}

-- The handle that `calloc` clears. Its streams are NULL until `_db_open` sets them.
unfoldable pub db_alloc : Tdb
db_alloc = record {
  idx = empty_stream;
  dat = empty_stream;
  idx_lock = lock_un;
  dat_lock = lock_un;
  nhash = tdb_max_hash_bucket;
  hash = 0;
  idxoff = 0;
  preidx = 0;
  key_ptr_pos = 0;
  datoff = 0;
  next_off = 0;
}

-- The size of the buffers for the two file names, and what `strcpy` and `strcat` put there.
unfoldable pub name_room : List ℕ → ℕ
name_room path = length path + 5

unfoldable pub idx_name : List ℕ → List ℕ
idx_name path = path ++ b'.' ∷ b't' ∷ b'd' ∷ b'i' ∷ []

unfoldable pub dat_name : List ℕ → List ℕ
dat_name path = path ++ b'.' ∷ b't' ∷ b'd' ∷ b'b' ∷ []

-- The header and the hash buckets are zeros: the seek leaves a gap, which reads as zeros.
unfoldable pub db_create : Tdb → Tdb
db_create db =
    let i = fwrite (fseek_set db.idx 0) (le_bytes tdb_int_size 0) in
    let offset = tdb_index_header_len + tdb_max_hash_bucket * tdb_off_size - tdb_off_size in
    let i' = fwrite (fseek_set i offset) (le_bytes tdb_off_size 0) in
    let d = fseek_set (fseek_set db.dat 0) (tdb_data_header_len - tdb_int_size) in
    record db { idx = i'; dat = fwrite d (le_bytes tdb_int_size 0) }

pub data OpenMode : Type 0 where
  mode_r mode_c mode_w : OpenMode

-- `fopen` with a mode that wants the file to be there; on failure `err_dump` exits.
unfoldable pub open_existing : Option File → Run Stream
open_existing none = exits
open_existing (some f) = returns (record { file = f; pos = 0 })

unfoldable pub open_files : Option File → Option File → Run Tdb
unfolding db_alloc open_existing
open_files idx dat = do
  i ← open_existing idx
  d ← open_existing dat
  returns (record db_alloc { idx = i; dat = d })

-- A handle whose streams were opened for reading and writing, "wb+" or "rb+", or for reading only,
-- "rb": on these every `fwrite` fails. The operations that write are modelled on the former.
pub data Opened : Type 0 where
  read_write read_only : Tdb → Opened

abbrev pub handle_of : Opened → Tdb
handle_of (read_write db) = db
handle_of (read_only db) = db

-- The files that stand at the two names, and the mode. `file_exists` looks at the index file only.
unfoldable pub db_open : Option File → Option File → OpenMode → Run Opened
unfolding db_create open_files db_alloc
db_open none dat mode = returns (read_write (db_create db_alloc))
db_open (some i) dat mode_c = returns (read_write (db_create db_alloc))
db_open (some i) dat mode_r = do db ← open_files (some i) dat; returns (read_only db)
db_open (some i) dat mode_w = do db ← open_files (some i) dat; returns (read_write db)

unfoldable pub tdb_open : Option File → Option File → OpenMode → Run Opened
unfolding db_open
tdb_open idx dat mode = db_open idx dat mode
