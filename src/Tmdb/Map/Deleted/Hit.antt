-- ===== src/Tmdb/Map/Deleted/Hit.antt =====
-- `_db_find_and_lock` and `_db_fetch` for a key whose record stands first in its bucket.
use cachelib_archive.Base.{
  ℕ, length, ◌<◌, suc, ◌+◌, ◌≤◌, ◌≡◌, ◌≢◌, refl, sym, ap, ◌∙◌, subst, Bool, true, false, some, List,
  arith, ◌==◌,
}
use cachelib_archive.Stdio.{File, Stream, bytes_at}
use cachelib_archive.CString.{str_eq}
use cachelib_archive.CString.Laws.{str_eq_iff}
use cachelib_archive.Tmdb.Layout.{trimmed_key, trimmed_record, data_ptr_of}
use cachelib_archive.Tmdb.Handle.{returns, Tdb, key_exist, unlock, db_hash}
use cachelib_archive.Tmdb.Find.{
  walk, find_loop, after_walk, find_in_bucket, db_find_and_lock, bucket_pos,
}
use cachelib_archive.Tmdb.Fetch.{fetch_found, db_fetch}
use cachelib_archive.Tmdb.Records.{IsKey}
use cachelib_archive.Tmdb.Chain.{fread-inside}
use cachelib_archive.Tmdb.Map.{IsData, bucket}
use cachelib_archive.Tmdb.Map.Lookup.{read_data_lem, is_bad_key-IsKey}
use cachelib_archive.Tmdb.Map.Search.{Locked, reads_bucket}

-- At the bucket's pointer stands a record of the key, whatever its flag and its next pointer.
pub record Leads (f : File) (b : ℕ) (key : List ℕ) (p d : ℕ) : Type 0 where
  pub head : bucket_pos b + 8 ≤ f.size
  pub at : bucket f b ≡ p
  pub some_ptr : p ≢ 0
  pub inside : p + 88 ≤ f.size
  pub key_is : trimmed_key (bytes_at f.byte p 88) ≡ key
  pub data_is : data_ptr_of (trimmed_record (bytes_at f.byte p 88)) ≡ d

-- The handle when the search has hit at once.
pub record Hits (old : Tdb) (p d b : ℕ) (db : Tdb) : Type 0 where
  pub idx_file : db.idx.file ≡ old.idx.file
  pub dat_file : db.dat.file ≡ old.dat.file
  pub nhash : db.nhash ≡ old.nhash
  pub hash : db.hash ≡ b
  pub idxoff : db.idxoff ≡ p
  pub key_ptr_pos : db.key_ptr_pos ≡ p
  pub datoff : db.datoff ≡ d

find_loop-hit :
    (fuel : ℕ) (s : Stream) (key : List ℕ) (p : ℕ)
    → p + 88 ≤ s.size
    → trimmed_key (bytes_at s.byte p 88) ≡ key
    → find_loop (suc fuel) s key p
      ≡ returns (walk true p (trimmed_record (bytes_at s.byte p 88)) (record s { pos = p + 88 }))
unfolding find_loop
find_loop-hit fuel s key p inside is =
    let hit : str_eq (trimmed_key (bytes_at s.byte p 88)) key ≡ true = (str_eq_iff _ key).1 is in
    rw (fread-inside s p 88 inside, find_loop, hit)

pub db_find_and_lock-hit :
    (fuel : ℕ) (db : Tdb) (key : List ℕ) (is_write : Bool) (p d : ℕ)
    → Leads db.idx.file (db_hash db.nhash key) key p d
    → (db' : Tdb) × (db_find_and_lock (suc fuel) db key is_write ≡ returns (key_exist, db'))
      × Hits db p d (db_hash db.nhash key) db'
unfolding find_in_bucket after_walk Locked
db_find_and_lock-hit fuel db key is_write p d l =
    let b = db_hash db.nhash key in
    let locked = Locked db is_write b in
    let buf = trimmed_record (bytes_at db.idx.byte p 88) in
    let s : Stream = record locked.idx { pos = p + 88 } in
    let nonzero : (p == 0) ≡ false = let ne = l.some_ptr in ground arith in
    let run = find_loop-hit fuel locked.idx key p l.inside l.key_is in
    let here : find_in_bucket (suc fuel) locked key p
        ≡ returns (
          key_exist,
          record locked {
            key_ptr_pos = p;
            idx = s;
            preidx = p + 88;
            idxoff = p;
            datoff = data_ptr_of buf;
          },
        ) =
      rw (nonzero, run) in
    (
      _,
      reads_bucket (suc fuel) db key is_write l.head
          ∙ ap (find_in_bucket (suc fuel) locked key) l.at
          ∙ here,
      record {
        idx_file = refl;
        dat_file = refl;
        nhash = refl;
        hash = refl;
        idxoff = refl;
        key_ptr_pos = refl;
        datoff = l.data_is;
      },
    )

pub fetch-hit :
    (fuel : ℕ) (db : Tdb) (key v : List ℕ) (p d : ℕ)
    → IsKey key
    → Leads db.idx.file (db_hash db.nhash key) key p d
    → IsData db.dat.file d v
    → length v < 4194304
    → (db' : Tdb) × (db_fetch (suc fuel) db (some key) ≡ returns (some v, db'))
unfolding db_fetch fetch_found
fetch-hit fuel db key v p d k l data_at short =
    let (db1, found, hits) = db_find_and_lock-hit fuel db key false p d l in
    let here : IsData db1.dat.file db1.datoff v =
      subst (λ f. IsData f db1.datoff v) (sym hits.dat_file)
        (subst (λ x. IsData db.dat.file x v) (sym hits.datoff) data_at) in
    let (s, run, _) = read_data_lem db1 v here in
    let room : (length v == 4194304) ≡ false = ground arith in
    (unlock (record db1 { dat = s }), rw (is_bad_key-IsKey key k, found) (rw room at run))
