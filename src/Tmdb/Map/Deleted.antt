-- ===== src/Tmdb/Map/Deleted.antt =====
-- What `_db_delete` leaves of a key that stands first in its bucket: its record is flagged, and
-- found as before.
pub mod Hit
pub mod Writes
use mathlib.Core.Option
use cachelib_archive.Base.{
  All, ℕ, suc, ◌+◌, ◌-◌, ◌*◌, ◌≤◌, ◌<◌, ◌≡◌, ◌≢◌, refl, sym, ap, ap₂, ◌⊎◌, ◌∙◌, subst, inl, inr,
  Bool, true, false, Option, none, some, List, [], ◌∷◌, ◌++◌, arith, length, drop, take, ◌==◌,
}
use cachelib_archive.Stdio.{File, Stream, bytes_at, fseek_set, fseek_cur, fread, fwrite, write_at}
use cachelib_archive.Stdio.Ints.{le_bytes, le_value, length-le_bytes}
use cachelib_archive.Stdio.Frame.{
  bytes_at-split, length-bytes_at, write_at-frame, size-write_at_inside, size-le-write_at,
}
use cachelib_archive.CString.{str_eq, cstr, rtrim}
use cachelib_archive.CString.Laws.{str_eq_iff, drop-append, drop-set_lt}
use cachelib_archive.Tmdb.Layout.{trimmed_key, trimmed_record, data_ptr_of, next_ptr_of}
use cachelib_archive.Tmdb.Handle.{
  Run, returns, Tdb, Status, tdb_success, KeyStatus, key_exist, unlock, db_hash, db_hash-lt,
}
use cachelib_archive.Tmdb.Find.{
  Walk, walk, find_loop, after_walk, find_in_bucket, db_find_and_lock, bucket_pos,
}
use cachelib_archive.Tmdb.Store.{is_bad_key}
use cachelib_archive.Tmdb.Delete.{
  mark_deleted, unlink_pos, delete_existing, delete_found, db_delete,
}
use cachelib_archive.Tmdb.Fetch.{read_data, fetch_found, db_fetch}
use cachelib_archive.Tmdb.Records.{IsKey, head_len}
use cachelib_archive.Tmdb.Slot.{read_key, read_data_ptr}
use cachelib_archive.Tmdb.Chain.{Entry, Chain, find_entry, fread-inside}
use cachelib_archive.Tmdb.Map.{IsData, Represents, buckets, bucket}
use cachelib_archive.Tmdb.Map.Lookup.{read_data_lem, is_bad_key-IsKey}
use cachelib_archive.Tmdb.Map.Search.{Locked, reads_bucket}
use cachelib_archive.Tmdb.Map.Deleted.Hit.{Leads, Hits, db_find_and_lock-hit, fetch-hit}
use cachelib_archive.Tmdb.Map.Deleted.Writes.{flagged, Leads-unlinked, marked, marked-reads}

abbrev Deletes : Tdb → ℕ → ℕ → Run (Status × Tdb) → Type 0
Deletes old p b run =
    (db' : Tdb) × (run ≡ returns (tdb_success, db'))
    × ((low : List ℕ) × (length low ≡ 4)
        × (db'.idx.file ≡ write_at (flagged old.idx.file p) (256 + b * 4) low))
    × (db'.dat.file ≡ old.dat.file)
    × (db'.nhash ≡ old.nhash)

-- The deletion of the key that was hit.
delete_existing-hit :
    (old db : Tdb) (p d b : ℕ)
    → Hits old p d b db
    → p + 88 ≤ old.idx.size
    → Deletes old p b (delete_existing db)
unfolding delete_existing mark_deleted unlink_pos fwrite unlock marked
delete_existing-hit old db p d b h inside =
    let low = bytes_at (flagged old.idx.file p).byte (marked old.idx.file p).pos 4 in
    let new = le_bytes 4 (le_value low) in
    let same : mark_deleted db ≡ marked old.idx.file p = ap₂ marked h.idx_file h.idxoff in
    let got = ap (λ s. fread s 4) same ∙ marked-reads old.idx.file p inside in
    let first : (db.key_ptr_pos == db.idxoff) ≡ true =
      let e = h.key_ptr_pos in let e' = h.idxoff in ground arith in
    let place : unlink_pos db ≡ 256 + b * 4 = rw (first, h.hash) in
    let s : Stream = record {
      file = flagged old.idx.file p;
      pos = (marked old.idx.file p).pos + 4;
    } in
    (
      unlock (record db { idx = fwrite (fseek_set s (unlink_pos db)) new }),
      (rw (got, delete_existing)),
      (
        new,
        length-le_bytes 4 (le_value low),
        ap (λ a. write_at (flagged old.idx.file p) a new) place,
      ),
      h.dat_file,
      h.nhash,
    )

delete-hit :
    (fuel : ℕ) (db : Tdb) (key : List ℕ) (p d : ℕ)
    → IsKey key
    → Leads db.idx.file (db_hash db.nhash key) key p d
    → Deletes db p (db_hash db.nhash key) (db_delete (suc fuel) db (some key))
unfolding db_delete delete_found
delete-hit fuel db key p d k l =
    let (db1, found, hits) = db_find_and_lock-hit fuel db key true p d l in
    let (db2, run, low, dat, nhash) =
      delete_existing-hit db db1 p d (db_hash db.nhash key) hits l.inside in
    (db2, rw (is_bad_key-IsKey key k, found) run, low, dat, nhash)

-- No other key of the map falls in the bucket of `key`.
abbrev pub IsAlone : (List ℕ → Option (List ℕ)) → List ℕ → Type 0
IsAlone m key =
    (key' v : List ℕ)
    → IsKey key'
    → m key' ≡ some v
    → db_hash buckets key' ≡ db_hash buckets key
    → key' ≡ key

-- A key whose entry stands first is found at once.
find_entry-first :
    (key : List ℕ) (e : Entry) (es : List Entry) → e.key ≡ key → find_entry key (e ∷ es) ≡ some e
unfolding find_entry
find_entry-first key e es h = rw ((str_eq_iff e.key key).1 h) refl

find_entry-alone :
    (db : Tdb) (m : List ℕ → Option (List ℕ)) (key v : List ℕ) (es : List Entry)
    → (r : Represents db m) → IsKey key
    → m key ≡ some v
    → IsAlone m key
    → r.chains (db_hash buckets key) ≡ es
    → All (λ e. db_hash buckets e.key ≡ db_hash buckets key) es
    → Chain db.idx.file (bucket db.idx.file (db_hash buckets key)) es
    → All (λ e. IsData db.dat.file e.data_ptr e.value) es
    → (e : Entry) × Leads db.idx.file (db_hash buckets key) key e.ptr e.data_ptr
      × (head_len ≤ e.ptr)
      × IsData db.dat.file e.data_ptr v
unfolding find_entry
find_entry-alone db m key v [] r k there alone same hashed c stored =
    let e : Option.map (λ e. e.value) (find_entry key []) ≡ some v =
      subst (λ es. Option.map (λ e. e.value) (find_entry key es) ≡ some v) same
        (r.gives key k ∙ there) in
    cc
find_entry-alone db m key v (e ∷ es) r k there alone same hashed (n, at, rec, c) stored =
    let b = db_hash buckets key in
    let own : m e.key ≡ some e.value =
      sym (r.gives e.key rec.is_key)
      ∙ ap (λ es. Option.map (λ e. e.value) (find_entry e.key es)) (ap r.chains hashed.0 ∙ same)
      ∙ ap (Option.map (λ e. e.value)) (find_entry-first e.key e es refl) in
    let is : e.key ≡ key = alone e.key e.value rec.is_key own hashed.0 in
    let value : some e.value ≡ some v = sym own ∙ ap m is ∙ there in
    let value' : e.value ≡ v = cc in
    (
      e,
      record {
        head = omega (arith, r.index.size, db_hash-lt buckets key (omega arith));
        at = at;
        some_ptr = ground (arith, rec.aligned);
        inside = rec.inside;
        key_is = read_key rec ∙ is;
        data_is = read_data_ptr rec;
      },
      omega (arith, rec.aligned),
      subst (IsData db.dat.file e.data_ptr) value' stored.0,
    )

-- The only key of a bucket stands first in its chain.
Leads-alone :
    (db : Tdb) (m : List ℕ → Option (List ℕ)) (key v : List ℕ)
    → (r : Represents db m) → IsKey key
    → m key ≡ some v
    → IsAlone m key
    → (e : Entry) × Leads db.idx.file (db_hash buckets key) key e.ptr e.data_ptr
      × (head_len ≤ e.ptr)
      × IsData db.dat.file e.data_ptr v
Leads-alone db m key v r k there alone =
    let b = db_hash buckets key in
    let lt = db_hash-lt buckets key (omega arith) in
    find_entry-alone db m key v (r.chains b) r k there alone refl (r.index.hashed b)
      (r.index.chain b lt) (r.stored.values b)

-- On a database that stands for a map which has `key`, the only key of the map in its bucket,
-- and the bucket is not the first one, `_db_delete` reports success, and a `_db_fetch` of the key
-- behind it still returns the value, which is shorter than 4194304 bytes.
pub db_delete-fetch :
    (fuel : ℕ) (db : Tdb) (m : List ℕ → Option (List ℕ)) (key v : List ℕ)
    → Represents db m
    → IsKey key
    → m key ≡ some v
    → length v < 4194304
    → IsAlone m key
    → 0 < db_hash buckets key
    → (db' : Tdb) × (db_delete (suc fuel) db (some key) ≡ returns (tdb_success, db'))
      × ((db'' : Tdb) × (db_fetch (suc fuel) db' (some key) ≡ returns (some v, db'')))
db_delete-fetch fuel db m key v r k there short alone low =
    let (e, l, low_ptr, data_at) = Leads-alone db m key v r k there alone in
    let l' : Leads db.idx.file (db_hash db.nhash key) key e.ptr e.data_ptr =
      subst (λ n. Leads db.idx.file (db_hash n key) key e.ptr e.data_ptr) (sym r.nhash) l in
    let (db', run, (bytes, len, idx), dat, nhash) = delete-hit fuel db key e.ptr e.data_ptr k l' in
    let kept =
      Leads-unlinked db.idx.file (db_hash buckets key) e.ptr bytes len low_ptr l.inside low
        (db_hash-lt buckets key (omega arith)) key e.data_ptr k l in
    let file =
      idx
      ∙ ap (λ n. write_at (flagged db.idx.file e.ptr) (256 + db_hash n key * 4) bytes) r.nhash in
    let still : Leads db'.idx.file (db_hash db'.nhash key) key e.ptr e.data_ptr =
      subst (λ n. Leads db'.idx.file (db_hash n key) key e.ptr e.data_ptr) (sym (nhash ∙ r.nhash))
        (subst (λ f. Leads f (db_hash buckets key) key e.ptr e.data_ptr) (sym file) kept) in
    (
      db',
      run,
      fetch-hit fuel db' key v e.ptr e.data_ptr k still
          (subst (λ f. IsData f e.data_ptr v) (sym dat) data_at) short,
    )
