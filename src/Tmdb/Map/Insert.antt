-- ===== src/Tmdb/Map/Insert.antt =====
-- `_db_store` with `TDB_INSERT` adds the key to the map, unless it is there.
use mathlib.Core.Option
use cachelib_archive.Base.{
  ℕ, ◌+◌, ◌-◌, ◌*◌, ◌^◌, ◌≤◌, ◌<◌, ◌≡◌, refl, sym, ap, ◌∙◌, subst, inl, inr, true, false, Option,
  none, some, List, [], ◌∷◌, ◌++◌, arith, length, ltb, ◌==◌, if◌then◌else◌, ==_iff, Bool-cases,
}
use cachelib_archive.Stdio.{write_at, fwrite}
use cachelib_archive.Stdio.Ints.{le_bytes}
use cachelib_archive.CString.{str_eq}
use cachelib_archive.CString.Laws.{IsText, str_eq_iff}
use cachelib_archive.Tmdb.Layout.{key_area, key_record}
use cachelib_archive.Tmdb.Handle.{
  Run, returns, Tdb, lock_un, Status, tdb_success, tdb_ok, Mode, tdb_insert, KeyStatus, key_first,
  key_notexist, key_exist, unlock, db_hash, db_hash-lt,
}
use cachelib_archive.Tmdb.Find.{bucket_pos}
use cachelib_archive.Tmdb.Store.{
  append_key, is_refused, save_key, save_data, record_pos, store_found, is_bad_store, db_store,
}
use cachelib_archive.Tmdb.Records.{IsKey, head_len}
use cachelib_archive.Tmdb.Chain.{Entry, find_entry, last_ptr}
use cachelib_archive.Tmdb.Map.{IsIndex, IsStore, Represents, buckets, extend}
use cachelib_archive.Tmdb.Map.Search.{FoundAs, Kept, db_find_and_lock-Finds}
use cachelib_archive.Tmdb.Map.Index.{linked, link_pos, appended, entry, IsIndex-append, linked-size}
use cachelib_archive.Tmdb.Map.Data.{
  save_data-else, record_pos_lem, Gained, save_data-Gained, IsStore-extend,
}
use cachelib_archive.Tmdb.Map.Lookup.{Represents-same, BothLocks, is_bad_key-IsKey}

abbrev pub or_else {ℓ} : {A : Type ℓ} → Option A → Option A → Option A
or_else (some a) o = some a
or_else none o = o

-- The map with a key added, which keeps the value that it has.
abbrev pub insert_map : (List ℕ → Option (List ℕ)) → List ℕ → List ℕ → List ℕ → Option (List ℕ)
insert_map m key value k = if str_eq key k then or_else (m k) (some value) else m k

-- What the store returns, given the value that the key has.
abbrev pub insert_status : Option (List ℕ) → Status
insert_status none = tdb_success
insert_status (some v) = tdb_ok

find_entry-snoc :
    (key : List ℕ) (es : List Entry) (x : Entry)
    → find_entry key (es ++ x ∷ []) ≡ or_else (find_entry key es) (find_entry key (x ∷ []))
unfolding find_entry
find_entry-snoc key [] x = refl
find_entry-snoc key (e ∷ es) x = elim (Bool-cases (str_eq e.key key)) [
  | inl hit ↦ rw hit
  | inr miss ↦ rw miss (find_entry-snoc key es x)
]

append_key-file :
    (db : Tdb) (area : List ℕ) (pos link : ℕ)
    → (append_key db area pos link).idx.file
      ≡ write_at
          (write_at db.idx.file db.idx.size (key_record 0 area pos 0))
          link
          (le_bytes 8 db.idx.size)
unfolding append_key fwrite
append_key-file db area pos link = let e : db.idx.size - 0 ≡ db.idx.size = omega arith in rw e

-- The files and locks after the index key has been saved.
record Saved (old : Tdb) (pad key value : List ℕ) (b : ℕ) (es : List Entry) (db1 db : Tdb)
    : Type 0 where
  idx_file : db.idx.file ≡ linked (appended old.idx.file pad key old.dat.size) b es old.idx.size
  dat_file : db.dat.file ≡ (save_data db1 value).dat.file
  nhash : db.nhash ≡ old.nhash
  unlocked : BothLocks lock_un db

-- The key record that is appended to what `save_data` leaves.
abbrev with_key : Tdb → List ℕ → List ℕ → List ℕ → ℕ → Tdb
with_key db pad key value link =
    unlock (append_key (save_data db value) (key_area pad key) (record_pos db) link)

with_key-Saved :
    (old : Tdb) (pad key value : List ℕ) (b : ℕ) (es : List Entry) (db : Tdb) (link : ℕ)
    → Kept old true b db
    → link ≡ link_pos b es
    → Saved old pad key value b es db (with_key db pad key value link)
unfolding unlock append_key
with_key-Saved old pad key value b es db link k at_link = record {
  idx_file =
      append_key-file (save_data db value) (key_area pad key) (record_pos db) link
      ∙ (rw (file, pos, at_link));
  dat_file = refl;
  nhash = ap (λ d. d.nhash) (save_data-else db value) ∙ k.nhash;
  unlocked = (refl, refl);
}
  where
    file : (save_data db value).idx.file ≡ old.idx.file
    file = ap (λ d. d.idx.file) (save_data-else db value) ∙ k.idx_file

    pos : record_pos db ≡ old.dat.size
    pos = record_pos_lem db ∙ ap (λ f. f.size) k.dat_file

-- The mode does not refuse a new key.
abbrev pub Adds : Mode → Type 0
Adds mode = (is_refused mode key_first ≡ false) × (is_refused mode key_notexist ≡ false)

save_key-Saved :
    (old : Tdb) (pad key value : List ℕ) (b : ℕ) (es : List Entry) (mode : Mode) (st : KeyStatus)
    (db : Tdb)
    → Adds mode
    → FoundAs es none (st, db)
    → Kept old true b db
    → (db' : Tdb) × (store_found pad mode (st, db) key value ≡ (tdb_success, db'))
      × Saved old pad key value b es db db'
unfolding store_found save_key
save_key-Saved old pad key value b [] mode st db adds f k =
    let hash : (save_data db value).hash ≡ b =
      ap (λ d. d.hash) (save_data-else db value) ∙ k.hash in
    (
      with_key db pad key value (bucket_pos (save_data db value).hash),
      rw (f, adds.0),
      with_key-Saved old pad key value b [] db _ k (rw hash),
    )
save_key-Saved old pad key value b (e ∷ es) mode st db adds (absent, pre) k =
    let preidx : (save_data db value).preidx ≡ last_ptr e es + 88 =
      ap (λ d. d.preidx) (save_data-else db value) ∙ pre in
    (
      with_key db pad key value ((save_data db value).preidx - 8),
      rw (absent, adds.1),
      with_key-Saved old pad key value b (e ∷ es) db _ k (rw preidx (omega arith)),
    )

or_else-none {ℓ} : {A : Type ℓ} (o : Option A) → or_else o none ≡ o
or_else-none none = refl
or_else-none (some a) = refl

-- The map of the chains with the new entry.
extended_gives :
    (m : List ℕ → Option (List ℕ)) (chains : ℕ → List Entry) (x : Entry) (key : List ℕ)
    → find_entry x.key (chains (db_hash buckets x.key)) ≡ none
    → Option.map (λ e. e.value) (find_entry key (chains (db_hash buckets key))) ≡ m key
    → Option.map
        (λ e. e.value)
        (find_entry key (extend chains (db_hash buckets x.key) x (db_hash buckets key)))
      ≡ insert_map m x.key x.value key
unfolding find_entry
extended_gives m chains x key absent g = elim (Bool-cases (str_eq x.key key)) [
  | inl same ↦
      let e : x.key ≡ key = (str_eq_iff x.key key).0 same in
      let absent' : find_entry key (chains (db_hash buckets key)) ≡ none =
        subst (λ k. find_entry k (chains (db_hash buckets k)) ≡ none) e absent in
      let home : (db_hash buckets key == db_hash buckets x.key) ≡ true =
        (==_iff _ _).1 (ap (db_hash buckets) (sym e)) in
      let none_there : m key ≡ none = sym g ∙ ap (Option.map (λ e. e.value)) absent' in
      rw (home, find_entry-snoc key (chains (db_hash buckets key)) x, absent', same, none_there)
  | inr differs ↦ elim (Bool-cases (db_hash buckets key == db_hash buckets x.key)) [
    | inl home ↦
        rw
          (
            home,
            find_entry-snoc key (chains (db_hash buckets key)) x,
            differs,
            or_else-none (find_entry key (chains (db_hash buckets key))),
          )
          g
    | inr away ↦ rw (away, differs) g
  ]
]

pub FoundAs-exist :
    (es : List Entry) (y : Entry) (st : KeyStatus) (db : Tdb)
    → FoundAs es (some y) (st, db)
    → st ≡ key_exist
FoundAs-exist [] y st db f = absurd f
FoundAs-exist (e ∷ es) y st db f = f.0

pub Represents-map :
    {m n : List ℕ → Option (List ℕ)} (db : Tdb)
    → Represents db m
    → ((key : List ℕ) → m key ≡ n key)
    → Represents db n
Represents-map db r same = record {
  chains = r.chains;
  nhash = r.nhash;
  index = r.index;
  stored = r.stored;
  gives = λ key k. r.gives key k ∙ same key;
}

pub insert_map_present :
    (m : List ℕ → Option (List ℕ)) (key value v : List ℕ)
    → m key ≡ some v
    → (j : List ℕ) → m j ≡ insert_map m key value j
insert_map_present m key value v h j = elim (Bool-cases (str_eq key j)) [
  | inl same ↦
      let there : m j ≡ some v = ap m (sym ((str_eq_iff key j).0 same)) ∙ h in rw (same, there)
  | inr differs ↦ rw differs
]

module _ (old : Tdb) (m : List ℕ → Option (List ℕ)) (pad key value : List ℕ) (r : Represents old m)
    (room : length pad ≡ 4) (k : IsKey key) (text : IsText value) (len : length value ≤ 4194304)
    (idx_fits : old.idx.size < 2 ^ 64) (dat_fits : old.dat.size < 2 ^ 64) where
  abbrev home : ℕ
  home = db_hash buckets key

  abbrev x : Entry
  x = entry old.idx.size key old.dat.size value

  Saved-Represents :
      (db1 db : Tdb)
      → find_entry key (r.chains home) ≡ none
      → Kept old true home db1
      → Saved old pad key value home (r.chains home) db1 db
      → Represents db (insert_map m key value)
  Saved-Represents db1 db absent kept s = record {
    chains = extend r.chains home x;
    nhash = s.nhash ∙ r.nhash;
    index =
        subst (λ f. IsIndex f (extend r.chains home x)) (sym s.idx_file)
          (IsIndex-append old.idx.file r.chains pad key old.dat.size value r.index room k dat_fits
            idx_fits (db_hash-lt buckets key (omega arith)));
    stored =
        subst (λ f. IsStore f (extend r.chains home x)) (sym s.dat_file)
          (IsStore-extend old.dat.file _ old.dat.size r.chains home x r.stored
            (subst (λ f. Gained f f.size value (save_data db1 value).dat.file) kept.dat_file
              (save_data-Gained db1 value (rw kept.dat_file (omega (arith, r.stored.header))) text
                len))
            refl);
    gives = λ key' k'. extended_gives m r.chains x key' absent (r.gives key' k');
  }

  abbrev Stores : Run (Status × Tdb) → Type 0
  Stores run =
      (db : Tdb) × (run ≡ returns (insert_status (m key), db))
      × Represents db (insert_map m key value)
      × BothLocks lock_un db
      × (db.idx.size ≤ old.idx.size + 88)

  Saved-size :
      (db1 db : Tdb)
      → Saved old pad key value home (r.chains home) db1 db
      → db.idx.size ≤ old.idx.size + 88
  Saved-size db1 db s = omega (
    arith,
    ap (λ f. f.size) s.idx_file,
    linked-size old.idx.file r.chains pad key old.dat.size value r.index room k dat_fits idx_fits
        (db_hash-lt buckets key (omega arith)),
  )

  abbrev Added : Run (Status × Tdb) → Type 0
  Added run =
      (db : Tdb) × (run ≡ returns (tdb_success, db))
      × Represents db (insert_map m key value)
      × BothLocks lock_un db
      × (db.idx.size ≤ old.idx.size + 88)

  pub store_found-Added :
      (mode : Mode) (st : KeyStatus) (db1 : Tdb)
      → Adds mode
      → find_entry key (r.chains home) ≡ none
      → FoundAs (r.chains home) none (st, db1)
      → Kept old true home db1
      → Added (returns (store_found pad mode (st, db1) key value))
  store_found-Added mode st db1 adds e f kept =
      let (db, run, s) =
        save_key-Saved old pad key value home (r.chains home) mode st db1 adds f kept in
      (db, ap returns run, Saved-Represents db1 db e kept s, s.unlocked, Saved-size db1 db s)

  -- By what the search found.
  store_found-Stores :
      (o : Option Entry) (st : KeyStatus) (db1 : Tdb)
      → find_entry key (r.chains home) ≡ o
      → FoundAs (r.chains home) o (st, db1)
      → Kept old true home db1
      → Stores (returns (store_found pad tdb_insert (st, db1) key value))
  unfolding store_found unlock is_refused
  store_found-Stores none st db1 e f kept =
      let (db, run, rep, locks, size) = store_found-Added tdb_insert st db1 (refl, refl) e f kept in
      let absent : m key ≡ none = sym (r.gives key k) ∙ ap (Option.map (λ e. e.value)) e in
      (db, rw absent run, rep, locks, size)
  store_found-Stores (some y) st db1 e f kept =
      let present : m key ≡ some y.value = sym (r.gives key k) ∙ ap (Option.map (λ e. e.value)) e in
      (
        unlock db1,
        rw (FoundAs-exist (r.chains home) y st db1 f, present, store_found),
        Represents-map (unlock db1)
            (Represents-same (unlock db1) r kept.idx_file kept.dat_file kept.nhash)
            (insert_map_present m key value y.value present),
        (refl, refl),
        omega (arith, ap (λ f. f.size) kept.idx_file),
      )

-- On a database that stands for a map, `_db_store` with `TDB_INSERT` returns within as many rounds
-- as the index file has key records. A key that the map has not is added with the value, and the
-- result is `TDB_SUCCESS`; a key that it has keeps its value, and the result is `TDB_OK`. Both
-- locks are given back, and the index file grows by one record at most. The key has 1 to 64 bytes and the value at most 4 MB, none of them a NUL,
-- the key does not end in white space, and both files are shorter than 2 ^ 64 bytes.
pub db_store-insert :
    (fuel : ℕ) (pad : List ℕ) (db : Tdb) (m : List ℕ → Option (List ℕ)) (key value : List ℕ)
    → Represents db m
    → IsKey key
    → IsText value
    → length value ≤ 4194304
    → length pad ≡ 4
    → db.idx.size ≤ head_len + 88 * fuel
    → db.idx.size < 2 ^ 64
    → db.dat.size < 2 ^ 64
    → (db' : Tdb) × (db_store fuel pad db (some key) (some value) tdb_insert
        ≡ returns (insert_status (m key), db'))
      × Represents db' (insert_map m key value)
      × BothLocks lock_un db'
      × (db'.idx.size ≤ db.idx.size + 88)
unfolding db_store is_bad_store
db_store-insert fuel pad db m key value r k text len room h idx_fits dat_fits =
    let b : ℕ = db_hash buckets key in
    let ((st, db1), found, as_found, kept) =
      db_find_and_lock-Finds fuel db key true r.nhash r.index (omega (arith, r.index.size)) in
    let small : ltb 4194304 (length value) ≡ false = ground arith in
    rw (is_bad_key-IsKey key k, small, found)
      (store_found-Stores db m pad key value r room k text len idx_fits dat_fits
        (find_entry key (r.chains b)) st db1 refl as_found kept)
