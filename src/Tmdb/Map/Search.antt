-- ===== src/Tmdb/Map/Search.antt =====
-- What `_db_find_and_lock` finds in a well-formed index.
use cachelib_archive.Base.{
  ℕ, ◌+◌, ◌≤◌, ◌<◌, ◌≡◌, refl, ap, ◌∙◌, Bool, false, Option, none, some, List, [], ◌∷◌, arith,
  length, ◌==◌,
}
use cachelib_archive.Tmdb.Handle.{
  Run, returns, Tdb, KeyStatus, key_first, key_notexist, key_exist, db_hash, db_hash-lt,
}
use cachelib_archive.Tmdb.Find.{
  Walk, find_loop, after_walk, find_in_bucket, db_find_and_lock, lock_for, bucket_pos,
}
use cachelib_archive.Tmdb.Chain.{
  Entry, Chain, find_entry, last_ptr, fread-inside, find_loop-Walked, Walked,
}
use cachelib_archive.Tmdb.Map.{buckets, bucket, IsIndex}

-- The result for a bucket's chain, given the entry that it has for the key.
abbrev pub FoundAs : List Entry → Option Entry → KeyStatus × Tdb → Type 0
FoundAs [] none (st, db) = st ≡ key_first
FoundAs [] (some x) r = ⊥
FoundAs (e ∷ es) none (st, db) = (st ≡ key_notexist) × (db.preidx ≡ last_ptr e es + 88)
FoundAs (e ∷ es) (some x) (st, db) =
    (st ≡ key_exist) × (db.idxoff ≡ x.ptr) × (db.datoff ≡ x.data_ptr)

-- What the search leaves as it was, and the locks that it takes.
pub record Kept (old : Tdb) (is_write : Bool) (b : ℕ) (db : Tdb) : Type 0 where
  pub idx_file : db.idx.file ≡ old.idx.file
  pub dat_file : db.dat.file ≡ old.dat.file
  pub nhash : db.nhash ≡ old.nhash
  pub hash : db.hash ≡ b
  pub locked : (db.idx_lock ≡ lock_for is_write) × (db.dat_lock ≡ lock_for is_write)

unfoldable pub Locked : Tdb → Bool → ℕ → Tdb
Locked db is_write b = record db {
  idx = record db.idx { pos = bucket_pos b + 8 };
  hash = b;
  idx_lock = lock_for is_write;
  dat_lock = lock_for is_write;
}

abbrev pub Finds : Tdb → Bool → List ℕ → ℕ → List Entry → Run (KeyStatus × Tdb) → Type 0
Finds old is_write key b es run =
    (r : KeyStatus × Tdb) × (run ≡ returns r)
    × FoundAs es (find_entry key es) r
    × Kept old is_write b r.1

after_walk-FoundAs :
    (db : Tdb) (e : Entry) (es : List Entry) (o : Option Entry) (w : Walk)
    → Walked db.idx.file o (last_ptr e es) w
    → FoundAs (e ∷ es) o (after_walk db w)
unfolding after_walk
after_walk-FoundAs db e es none w (miss, pre, file) = rw miss (refl, pre)
after_walk-FoundAs db e es (some x) w (hit, at, dat, file) = rw hit (refl, at, dat)

after_walk-Kept :
    (old db : Tdb) (is_write : Bool) (b last : ℕ) (o : Option Entry) (w : Walk)
    → Kept old is_write b db
    → Walked db.idx.file o last w
    → Kept old is_write b (after_walk db w).1
unfolding after_walk
after_walk-Kept old db is_write b last none w k (miss, pre, file) = rw miss (record {
  idx_file = file ∙ k.idx_file;
  dat_file = k.dat_file;
  nhash = k.nhash;
  hash = k.hash;
  locked = k.locked;
})
after_walk-Kept old db is_write b last (some x) w k (hit, at, dat, file) = rw hit (record {
  idx_file = file ∙ k.idx_file;
  dat_file = k.dat_file;
  nhash = k.nhash;
  hash = k.hash;
  locked = k.locked;
})

in_bucket :
    (fuel : ℕ) (db : Tdb) (is_write : Bool) (key : List ℕ) (b p : ℕ) (es : List Entry)
    → Chain db.idx.file p es
    → length es ≤ fuel
    → Finds db is_write key b es (find_in_bucket fuel (Locked db is_write b) key p)
unfolding find_in_bucket Locked find_entry
in_bucket fuel db is_write key b p [] e h = rw e (
  _,
  refl,
  refl,
  record { idx_file = refl; dat_file = refl; nhash = refl; hash = refl; locked = (refl, refl) },
)
in_bucket fuel db is_write key b p (e ∷ es) (n, at, r, c) h =
    let (w, run, is) =
      find_loop-Walked fuel (Locked db is_write b).idx key e es (n, refl, r, c) h in
    let go_on : (p == 0) ≡ false = ground arith in
    let at_p : find_loop fuel (Locked db is_write b).idx key p ≡ returns w = rw at run in
    let db' : Tdb = record (Locked db is_write b) { key_ptr_pos = p } in
    (
      after_walk db' w,
      rw (go_on, at_p),
      after_walk-FoundAs db' e es (find_entry key (e ∷ es)) w is,
      after_walk-Kept db db' is_write b (last_ptr e es) (find_entry key (e ∷ es)) w
          (record {
            idx_file = refl;
            dat_file = refl;
            nhash = refl;
            hash = refl;
            locked = (refl, refl);
          })
          is,
    )

-- The bucket's pointer is read.
pub reads_bucket :
    (fuel : ℕ) (db : Tdb) (key : List ℕ) (is_write : Bool)
    → bucket_pos (db_hash db.nhash key) + 8 ≤ db.idx.size
    → db_find_and_lock fuel db key is_write
      ≡ find_in_bucket fuel
          (Locked db is_write (db_hash db.nhash key))
          key
          (bucket db.idx.file (db_hash db.nhash key))
unfolding db_find_and_lock Locked
reads_bucket fuel db key is_write h =
    rw (fread-inside db.idx (bucket_pos (db_hash db.nhash key)) 8 h, db_find_and_lock)

-- The search returns, and finds what the chain of the key's bucket has.
pub db_find_and_lock-Finds :
    (fuel : ℕ) (db : Tdb) (key : List ℕ) (is_write : Bool) {chains : ℕ → List Entry}
    → db.nhash ≡ buckets
    → (ix : IsIndex db.idx.file chains) → ix.records ≤ fuel
    → Finds db is_write key
        (db_hash buckets key)
        (chains (db_hash buckets key))
        (db_find_and_lock fuel db key is_write)
db_find_and_lock-Finds fuel db key is_write {chains} n ix h =
    let b : ℕ = db_hash buckets key in
    let at_b : db_hash db.nhash key ≡ b = ap (λ x. db_hash x key) n in
    let in_range : b < buckets = db_hash-lt buckets key (omega arith) in
    let (r, run, as_found, kept) =
      in_bucket fuel db is_write key b (bucket db.idx.file b) (chains b) (ix.chain b in_range)
        (omega (arith, ix.short b)) in
    let same =
      ap (λ x. find_in_bucket fuel (Locked db is_write x) key (bucket db.idx.file x)) at_b in
    (
      r,
      reads_bucket fuel db key is_write (rw at_b (omega (arith, ix.size))) ∙ same ∙ run,
      as_found,
      kept,
    )
