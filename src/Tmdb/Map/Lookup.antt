-- ===== src/Tmdb/Map/Lookup.antt =====
-- `_db_fetch` gives what the map gives.
use mathlib.Core.Option
use cachelib_archive.Base.{
  All, ℕ, ◌+◌, ◌*◌, ◌≤◌, ◌≡◌, refl, sym, ap, ◌∙◌, subst, inl, inr, false, Option, none, some, List,
  [], ◌∷◌, arith, length, ltb, ◌==◌, if◌then◌else◌, Bool-cases,
}
use cachelib_archive.Stdio.{Stream, bytes_at, fseek_set}
use cachelib_archive.Stdio.Ints.{le_value, le_value-le_bytes}
use cachelib_archive.CString.{cstr, str_eq}
use cachelib_archive.CString.Laws.{cstr_whole}
use cachelib_archive.Tmdb.Handle.{
  Run, returns, undefined, Tdb, Lock, lock_un, lock_sh, KeyStatus, unlock, db_hash,
}
use cachelib_archive.Tmdb.Store.{is_bad_key}
use cachelib_archive.Tmdb.Fetch.{read_string, read_data, fetch_found, db_fetch}
use cachelib_archive.Tmdb.Records.{IsKey, head_len}
use cachelib_archive.Tmdb.Chain.{Entry, find_entry, fread-inside}
use cachelib_archive.Tmdb.Map.{IsData, IsIndex, IsStore, Represents, buckets}
use cachelib_archive.Tmdb.Map.Search.{FoundAs, Kept, db_find_and_lock-Finds}

pub find_entry-All {κ} :
    (P : Entry → Type κ) (key : List ℕ) (es : List Entry) (e : Entry)
    → find_entry key es ≡ some e
    → All P es
    → P e
unfolding find_entry
find_entry-All P key [] e h a = cc
find_entry-All P key (x ∷ es) e h a = elim (Bool-cases (str_eq x.key key)) [
  | inl hit ↦ let first : some x ≡ some e = rw hit at h in let same : x ≡ e = cc in subst P same a.0
  | inr miss ↦ find_entry-All P key es e (rw miss at h) a.1
]

-- A handle over the same two files stands for the same map.
pub Represents-same :
    {db : Tdb} {m : List ℕ → Option (List ℕ)} (db' : Tdb)
    → Represents db m
    → db'.idx.file ≡ db.idx.file
    → db'.dat.file ≡ db.dat.file
    → db'.nhash ≡ db.nhash
    → Represents db' m
Represents-same db' r i d n = record {
  chains = r.chains;
  nhash = n ∙ r.nhash;
  index = subst (λ f. IsIndex f r.chains) (sym i) r.index;
  stored = subst (λ f. IsStore f r.chains) (sym d) r.stored;
  gives = r.gives;
}

-- How a fetch ends, given the value that the key has: the value of the largest length fills the
-- buffer, and its NUL is looked for behind it.
abbrev pub fetched : Option (List ℕ) → Tdb → Run (Option (List ℕ) × Tdb)
fetched none db = returns (none, db)
fetched (some v) db = if length v == 4194304 then undefined else returns (some v, db)

-- The bytes behind the length are the value's.
read_string_lem :
    (db : Tdb) (v : List ℕ)
    → IsData db.dat.file db.datoff v
    → read_string db (fseek_set db.dat (db.datoff + 4 + 4)) (length v)
      ≡ fetched
          (some v)
          (unlock (record db { dat = fseek_set db.dat (db.datoff + 4 + 4 + length v) }))
unfolding read_string
read_string_lem db v i =
    rw
      (
        fread-inside db.dat (db.datoff + 4 + 4) (length v) (omega (arith, i.inside)),
        read_string,
        read,
        small,
      )
      refl
  where
    small : ltb 4194304 (length v) ≡ false
    small = let f = i.fits in ground arith

    read : cstr (bytes_at db.dat.byte (db.datoff + 4 + 4) (length v)) ≡ v
    read =
        let e : db.datoff + 8 ≡ db.datoff + 4 + 4 = omega arith in
        ap cstr (rw e at i.bytes) ∙ cstr_whole v i.text

-- The data record is read whole, and both locks are given back.
pub read_data_lem :
    (db : Tdb) (v : List ℕ)
    → IsData db.dat.file db.datoff v
    → (s : Stream) × (read_data db ≡ fetched (some v) (unlock (record db { dat = s })))
      × (s.file ≡ db.dat.file)
unfolding read_data
read_data_lem db v i = (
  fseek_set db.dat (db.datoff + 4 + 4 + length v),
  rw (fread-inside db.dat (db.datoff + 4) 4 (omega (arith, i.inside)), read_data)
      (ap (read_string db (fseek_set db.dat (db.datoff + 4 + 4)))
          (ap le_value i.len ∙ le_value-le_bytes 4 (length v) (omega (arith, i.fits)))
        ∙ read_string_lem db v i),
  refl,
)

-- The lock that a fetch leaves on both files.
abbrev pub lock_after : Option (List ℕ) → Lock
lock_after none = lock_sh
lock_after (some v) = lock_un

abbrev pub BothLocks : Lock → Tdb → Type 0
BothLocks l db = (db.idx_lock ≡ l) × (db.dat_lock ≡ l)

abbrev Fetches :
    Tdb → (List ℕ → Option (List ℕ)) → Option (List ℕ) → Run (Option (List ℕ) × Tdb) → Type 0
Fetches old m o run =
    (db : Tdb) × (run ≡ fetched o db) × Represents db m × BothLocks (lock_after o) db

fetch_found-Fetches :
    (old : Tdb) (m : List ℕ → Option (List ℕ)) (b : ℕ) (es : List Entry) (o : Option Entry)
    (st : KeyStatus) (db : Tdb)
    → Represents old m
    → FoundAs es o (st, db)
    → Kept old false b db
    → ((e : Entry) → o ≡ some e → IsData old.dat.file e.data_ptr e.value)
    → Fetches old m (Option.map (λ e. e.value) o) (fetch_found (st, db))
unfolding fetch_found unlock
fetch_found-Fetches old m b [] none st db r f k i =
    (db, rw f, Represents-same db r k.idx_file k.dat_file k.nhash, k.locked)
fetch_found-Fetches old m b [] (some e) st db r f k i = absurd f
fetch_found-Fetches old m b (x ∷ es) none st db r f k i =
    (db, rw f.0, Represents-same db r k.idx_file k.dat_file k.nhash, k.locked)
fetch_found-Fetches old m b (x ∷ es) (some e) st db r (exist, at, dat) k i =
    let (s, run, same) = read_data_lem db e.value (rw (k.dat_file, dat) (i e refl)) in
    (
      unlock (record db { dat = s }),
      rw exist run,
      Represents-same (unlock (record db { dat = s })) r k.idx_file (same ∙ k.dat_file) k.nhash,
      (refl, refl),
    )

pub is_bad_key-IsKey : (key : List ℕ) → IsKey key → is_bad_key key ≡ false
unfolding is_bad_key
is_bad_key-IsKey key k = ground arith

-- On a database that stands for a map, `_db_fetch` returns within as many rounds as the index file
-- has key records, its result is the map's value at the key, NULL if there is none, and the
-- database stands for the map as before. Both locks are given back if the key was found, and kept
-- as shared locks if it was not. A value of 4194304 bytes, the largest that a store accepts, is the
-- exception: it fills the buffer, and the fetch is undefined.
pub db_fetch-lookup :
    (fuel : ℕ) (db : Tdb) (m : List ℕ → Option (List ℕ)) (key : List ℕ)
    → Represents db m
    → IsKey key
    → db.idx.size ≤ head_len + 88 * fuel
    → (db' : Tdb) × (db_fetch fuel db (some key) ≡ fetched (m key) db')
      × Represents db' m
      × (db'.idx_lock ≡ lock_after (m key))
      × (db'.dat_lock ≡ lock_after (m key))
unfolding db_fetch
db_fetch-lookup fuel db m key r k h =
    let b : ℕ = db_hash buckets key in
    let ((st, db1), found, as_found, kept) =
      db_find_and_lock-Finds fuel db key false r.nhash r.index (omega (arith, r.index.size)) in
    let (db2, run, rep, locks) =
      fetch_found-Fetches db m b (r.chains b) (find_entry key (r.chains b)) st db1 r as_found kept
        λ e eq. find_entry-All _ key (r.chains b) e eq (r.stored.values b) in
    (
      db2,
      rw (is_bad_key-IsKey key k, found) (run ∙ ap (λ v. fetched v db2) (r.gives key k)),
      rep,
      locks.0 ∙ ap lock_after (r.gives key k),
      locks.1 ∙ ap lock_after (r.gives key k),
    )
