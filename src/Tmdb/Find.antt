-- ===== src/Tmdb/Find.antt =====
-- `_db_find_and_lock` of tmdb/src/tmdb.cpp.
use cachelib_archive.Base.{
  ℕ, zero, suc, ◌+◌, ◌*◌, Bool, true, false, none, some, List, ◌==◌, if◌then◌else◌,
}
use cachelib_archive.Stdio.{Stream, fseek_set, ftell, fread}
use cachelib_archive.Stdio.Ints.{le_value}
use cachelib_archive.CString.{str_eq}
use cachelib_archive.Tmdb.Layout.{
  tdb_index_header_len, tdb_off_size, sizeof_key_record, trimmed_key, trimmed_record, data_ptr_of,
  next_ptr_of,
}
use cachelib_archive.Tmdb.Handle.{
  Run, returns, exits, out_of_fuel, ◌>>=◌, Lock, lock_sh, lock_ex, Tdb, KeyStatus, key_first,
  key_notexist, key_exist, key_error, db_hash,
}

-- Where the walk along a bucket's chain ended.
pub record Walk : Type 0 where
  pub found : Bool
  pub ptr : ℕ
  pub preidx : ℕ
  pub data_ptr : ℕ
  pub idx : Stream

abbrev pub walk : Bool → ℕ → List ℕ → Stream → Walk
walk b p rec s = record {
  found = b;
  ptr = p;
  preidx = ftell s;
  data_ptr = data_ptr_of rec;
  idx = s;
}

-- The `while (1)` loop, with the number of rounds that it may take.
unfoldable pub find_loop : ℕ → Stream → List ℕ → ℕ → Run Walk
find_loop zero s key p = out_of_fuel
find_loop (suc fuel) s key p = elim (fread (fseek_set s p) sizeof_key_record) [
  | none ↦ exits
  | some (buf, s') ↦
      let rest = find_loop fuel s' key (next_ptr_of (trimmed_record buf)) in
      if str_eq (trimmed_key buf) key
      then returns (walk true p (trimmed_record buf) s')
      else if next_ptr_of (trimmed_record buf) == 0
      then returns (walk false p (trimmed_record buf) s')
      else rest
]

-- What the walk leaves in the handle. `datoff` is set only where the key was found.
unfoldable pub after_walk : Tdb → Walk → KeyStatus × Tdb
after_walk db w =
    if w.found
    then (
      key_exist,
      record db { idx = w.idx; preidx = w.preidx; idxoff = w.ptr; datoff = w.data_ptr },
    )
    else (key_notexist, record db { idx = w.idx; preidx = w.preidx; idxoff = w.ptr })

-- The bucket's pointer has been read.
unfoldable pub find_in_bucket : ℕ → Tdb → List ℕ → ℕ → Run (KeyStatus × Tdb)
unfolding find_loop after_walk
find_in_bucket fuel db key p =
    if p == 0
    then returns (key_first, record db { key_ptr_pos = p; idxoff = 0 })
    else do w ← find_loop fuel db.idx key p; returns (after_walk (record db { key_ptr_pos = p }) w)

abbrev pub lock_for : Bool → Lock
lock_for true = lock_ex
lock_for false = lock_sh

-- The offset of a bucket in the index file.
abbrev pub bucket_pos : ℕ → ℕ
bucket_pos b = tdb_index_header_len + b * tdb_off_size

unfoldable pub db_find_and_lock : ℕ → Tdb → List ℕ → Bool → Run (KeyStatus × Tdb)
unfolding find_in_bucket
db_find_and_lock fuel db key is_write =
    let b = db_hash db.nhash key in
    let db' = record db { hash = b; idx_lock = lock_for is_write; dat_lock = lock_for is_write } in
    elim (fread (fseek_set db.idx (bucket_pos b)) tdb_off_size) [
      | none ↦ returns (key_error, record db' { idx = fseek_set db.idx (bucket_pos b) })
      | some (buf, s) ↦ find_in_bucket fuel (record db' { idx = s }) key (le_value buf)
    ]
