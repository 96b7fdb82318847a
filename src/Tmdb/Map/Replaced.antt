-- ===== src/Tmdb/Map/Replaced.antt =====
-- `_db_store` with `TDB_REPLACE` or `TDB_STORE` on a key that the map has.
pub mod Bytes
pub mod Chains
pub mod Index
use mathlib.Core.Option
use cachelib_archive.Base.{
  All, ℕ, ◌+◌, ◌*◌, ◌^◌, ◌≤◌, ◌<◌, ◌≡◌, ◌≢◌, refl, sym, ap, ap₂, ◌∙◌, subst, ◌⊎◌, inl, inr, true,
  false, Option, none, some, List, [], ◌∷◌, arith, length, ltb, ◌==◌, if◌then◌else◌, ==_iff,
  Bool-cases,
}
use cachelib_archive.Stdio.{File, write_at, fwrite}
use cachelib_archive.Stdio.Ints.{le_bytes, length-le_bytes}
use cachelib_archive.Stdio.Frame.{size-write_at_inside}
use cachelib_archive.CString.{str_eq}
use cachelib_archive.CString.Laws.{IsText, str_eq_iff}
use cachelib_archive.Tmdb.Handle.{
  Run, returns, Tdb, lock_un, Status, tdb_success, Mode, tdb_replace, tdb_store, KeyStatus,
  key_exist, unlock, db_hash, db_hash-lt,
}
use cachelib_archive.Tmdb.Find.{bucket_pos}
use cachelib_archive.Tmdb.Store.{
  is_refused, replace_data_ptr, save_key, save_data, record_pos, store_found, is_bad_store,
  is_known, db_store,
}
use cachelib_archive.Tmdb.Records.{IsKey, head_len}
use cachelib_archive.Tmdb.Slot.{IsRecord}
use cachelib_archive.Tmdb.Chain.{Entry, Chain, find_entry}
use cachelib_archive.Tmdb.Map.{IsData, IsIndex, IsStore, Represents, buckets, bucket}
use cachelib_archive.Tmdb.Map.Search.{FoundAs, Kept, db_find_and_lock-Finds}
use cachelib_archive.Tmdb.Map.Index.{bucket-outside}
use cachelib_archive.Tmdb.Map.Data.{
  save_data-else, record_pos_lem, Gained, save_data-Gained, All-map,
}
use cachelib_archive.Tmdb.Map.Lookup.{BothLocks, is_bad_key-IsKey, find_entry-All}
use cachelib_archive.Tmdb.Map.Insert.{FoundAs-exist}
use cachelib_archive.Tmdb.Map.Replaced.Index.{IsIndex-emptied}
use cachelib_archive.Tmdb.Map.Replaced.Chains.{
  emptied, length-emptied, emptied-none, All-emptied, Rising-emptied, found-IsRecord, own-Chain,
  other-Chain, find_entry-emptied,
}

-- The map in which the key has the empty value in place of its own.
abbrev pub empty_value : (List ℕ → Option (List ℕ)) → List ℕ → List ℕ → Option (List ℕ)
empty_value m key j = if str_eq key j then Option.map (λ v. []) (m j) else m j

-- The values stay, and that of the key is the empty one at the start of the file.
IsStore-emptied :
    (f g : File) (p : ℕ) (chains : ℕ → List Entry) (key value : List ℕ)
    → IsStore f chains
    → Gained f p value g
    → IsStore g (λ c. emptied key (chains c))
IsStore-emptied f g p chains key value s (new, grown, kept) = record {
  header = omega (arith, s.header);
  origin = origin;
  values = λ c.
      All-emptied _ key (chains c) (λ e i. origin)
        (All-map _ _ (chains c) (λ e i. kept e.data_ptr e.value i) (s.values c));
}
  where
    origin : IsData g 0 []
    origin = kept 0 [] s.origin

-- The modes that write on a key that is there.
abbrev pub Overwrites : Mode → Type 0
Overwrites mode = (mode ≡ tdb_replace) ⊎ (mode ≡ tdb_store)

replace_data_ptr-file :
    (db : Tdb) (p pos : ℕ)
    → db.idxoff ≡ p
    → (replace_data_ptr db pos).idx.file ≡ write_at db.idx.file (p + 68) (le_bytes 8 pos)
unfolding replace_data_ptr fwrite
replace_data_ptr-file db p pos h =
    let e : db.idxoff + 4 + 64 ≡ p + 68 = omega arith in
    ap (λ a. write_at db.idx.file a (le_bytes 8 pos)) e

store_found-Overwrites :
    (pad : List ℕ) (mode : Mode) (db : Tdb) (key value : List ℕ)
    → Overwrites mode
    → store_found pad mode (key_exist, db) key value
      ≡ (tdb_success, unlock (replace_data_ptr (save_data db value) (record_pos db)))
unfolding store_found save_key is_refused
store_found-Overwrites pad mode db key value (inl e) = rw e
store_found-Overwrites pad mode db key value (inr e) = rw e

is_known-Overwrites : (mode : Mode) → Overwrites mode → is_known mode ≡ true
is_known-Overwrites mode (inl e) = rw e
is_known-Overwrites mode (inr e) = rw e

entry_of :
    {v : List ℕ} (o : Option Entry)
    → Option.map (λ e. e.value) o ≡ some v
    → (x : Entry) × (o ≡ some x)
entry_of none h = absurd (ground arith)
entry_of (some x) h = (x, refl)

Option-map-empty :
    {r : Option (List ℕ)} (o : Option Entry)
    → Option.map (λ e. e.value) o ≡ r
    → Option.map {B = List ℕ} (λ e. []) o ≡ Option.map {B = List ℕ} (λ v. []) r
Option-map-empty none h = rw (sym h)
Option-map-empty (some x) h = rw (sym h)

-- A found entry is reported with its place.
FoundAs-at :
    (es : List Entry) (x : Entry) (st : KeyStatus) (db : Tdb)
    → FoundAs es (some x) (st, db)
    → db.idxoff ≡ x.ptr
FoundAs-at [] x st db f = absurd f
FoundAs-at (e ∷ es) x st db f = f.1

module _ (old : Tdb) (m : List ℕ → Option (List ℕ)) (key value : List ℕ) (r : Represents old m)
    (k : IsKey key) (short : length key < 64) (text : IsText value) (len : length value ≤ 4194304)
    (fits : old.dat.size < 2 ^ 32) where
  abbrev at_home : List Entry
  at_home = r.chains (db_hash buckets key)

  -- The value of every entry lies in the data file.
  low_data : (x : Entry) → find_entry key at_home ≡ some x → x.data_ptr < 2 ^ 32
  low_data x found =
      let i : IsData old.dat.file x.data_ptr x.value =
        find_entry-All _ key at_home x found (r.stored.values (db_hash buckets key)) in
      omega (arith, i.inside)

  overwritten_gives :
      (j : List ℕ)
      → IsKey j
      → Option.map (λ e. e.value) (find_entry j (emptied key (r.chains (db_hash buckets j))))
        ≡ empty_value m key j
  overwritten_gives j kj = elim (Bool-cases (str_eq key j)) [
    | inl same ↦
        find_entry-emptied key j (r.chains (db_hash buckets j))
        ∙ (rw same (Option-map-empty (find_entry j (r.chains (db_hash buckets j))) (r.gives j kj)))
    | inr differs ↦
        find_entry-emptied key j (r.chains (db_hash buckets j)) ∙ (rw differs (r.gives j kj))
  ]

  overwritten-Represents :
      (x : Entry) (db db' : Tdb)
      → find_entry key at_home ≡ some x
      → Kept old true (db_hash buckets key) db
      → db.idxoff ≡ x.ptr
      → db' ≡ unlock (replace_data_ptr (save_data db value) (record_pos db))
      → Represents db' (empty_value m key)
  unfolding unlock replace_data_ptr
  overwritten-Represents x db db' found kept at is = record {
    chains = λ c. emptied key (r.chains c);
    nhash =
        ap (λ d. d.nhash) is ∙ ap (λ d. d.nhash) (save_data-else db value) ∙ kept.nhash ∙ r.nhash;
    index =
        subst (λ f. IsIndex f (λ c. emptied key (r.chains c))) (sym idx)
          (IsIndex-emptied old.idx.file r.chains key x old.dat.size r.index found short
            (low_data x found) fits);
    stored =
        subst (λ f. IsStore f (λ c. emptied key (r.chains c))) (sym dat)
          (IsStore-emptied old.dat.file _ old.dat.size r.chains key value r.stored (
            subst (λ f. Gained f f.size value (save_data db value).dat.file) kept.dat_file
              (save_data-Gained db value (rw kept.dat_file (omega (arith, r.stored.header))) text
                len)));
    gives = overwritten_gives;
  }
    where
      saved : (save_data db value).idxoff ≡ x.ptr
      saved = ap (λ d. d.idxoff) (save_data-else db value) ∙ at

      idx : db'.idx.file ≡ write_at old.idx.file (x.ptr + 68) (le_bytes 8 old.dat.size)
      idx =
          ap (λ d. d.idx.file) is
          ∙ replace_data_ptr-file (save_data db value) x.ptr (record_pos db) saved
          ∙ ap₂ (λ f n. write_at f (x.ptr + 68) (le_bytes 8 n))
              (ap (λ d. d.idx.file) (save_data-else db value) ∙ kept.idx_file)
              (record_pos_lem db ∙ ap (λ f. f.size) kept.dat_file)

      dat : db'.dat.file ≡ (save_data db value).dat.file
      dat = ap (λ d. d.dat.file) is

  abbrev Overwritten : Run (Status × Tdb) → Type 0
  Overwritten run =
      (db : Tdb) × (run ≡ returns (tdb_success, db))
      × Represents db (empty_value m key)
      × BothLocks lock_un db

  store_found-Overwritten :
      (pad : List ℕ) (mode : Mode) (x : Entry) (st : KeyStatus) (db : Tdb)
      → Overwrites mode
      → find_entry key at_home ≡ some x
      → FoundAs at_home (some x) (st, db)
      → Kept old true (db_hash buckets key) db
      → Overwritten (returns (store_found pad mode (st, db) key value))
  unfolding unlock
  store_found-Overwritten pad mode x st db over found f kept = (
    unlock (replace_data_ptr (save_data db value) (record_pos db)),
    rw (FoundAs-exist at_home x st db f)
        (ap returns (store_found-Overwrites pad mode db key value over)),
    overwritten-Represents x db _ found kept (FoundAs-at at_home x st db f) refl,
    (refl, refl),
  )

-- On a database that stands for a map which has `key`, `_db_store` with `TDB_REPLACE` or
-- `TDB_STORE` reports success within as many rounds as the index file has key records, and the
-- database then stands for the map in which the key has the empty string: neither the value that
-- it had nor the new one can be read, and every other key keeps its value. The key has 1 to 63
-- bytes and the value at most 4 MB, none of them a NUL, the key does not end in white space, and
-- the data file is shorter than 2 ^ 32 bytes.
pub db_store-overwrite :
    (fuel : ℕ) (pad : List ℕ) (db : Tdb) (m : List ℕ → Option (List ℕ)) (key value v : List ℕ)
    (mode : Mode)
    → Represents db m
    → IsKey key
    → length key < 64
    → m key ≡ some v
    → IsText value
    → length value ≤ 4194304
    → db.idx.size ≤ head_len + 88 * fuel
    → db.dat.size < 2 ^ 32
    → Overwrites mode
    → (db' : Tdb) × (db_store fuel pad db (some key) (some value) mode ≡ returns (tdb_success, db'))
      × Represents db' (empty_value m key)
      × BothLocks lock_un db'
unfolding db_store is_bad_store
db_store-overwrite fuel pad db m key value v mode r k short there text len h fits over =
    let b : ℕ = db_hash buckets key in
    let ((st, db1), found, as_found, kept) =
      db_find_and_lock-Finds fuel db key true r.nhash r.index (omega (arith, r.index.size)) in
    let small : ltb 4194304 (length value) ≡ false = ground arith in
    let (x, at) = entry_of (find_entry key (r.chains b)) (r.gives key k ∙ there) in
    rw (is_known-Overwrites mode over, is_bad_key-IsKey key k, small, found)
      (store_found-Overwritten db m key value r k short text len fits pad mode x st db1 over at
        (subst (λ o. FoundAs (r.chains b) o (st, db1)) at as_found) kept)
