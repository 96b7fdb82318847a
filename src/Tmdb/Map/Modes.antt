-- ===== src/Tmdb/Map/Modes.antt =====
-- `_db_store` in every mode, as an operation on the map.
use mathlib.Core.Option
use cachelib_archive.Base.{
  ℕ, ◌+◌, ◌*◌, ◌^◌, ◌≤◌, ◌<◌, ◌≡◌, refl, sym, ap, ◌∙◌, subst, inl, inr, true, false, Option, none,
  some, List, [], ◌∷◌, arith, length, ltb,
}
use cachelib_archive.CString.Laws.{IsText}
use cachelib_archive.Tmdb.Handle.{
  returns, Tdb, Status, tdb_success, tdb_ok, tdb_error, Mode, tdb_insert, tdb_replace, tdb_store,
  other, KeyStatus, unlock, db_hash,
}
use cachelib_archive.Tmdb.Store.{is_bad_store, is_known, is_refused, store_found, db_store}
use cachelib_archive.Tmdb.Records.{IsKey, head_len}
use cachelib_archive.Tmdb.Chain.{Entry, find_entry}
use cachelib_archive.Tmdb.Map.{Represents, buckets}
use cachelib_archive.Tmdb.Map.Search.{FoundAs, Kept, db_find_and_lock-Finds}
use cachelib_archive.Tmdb.Map.Lookup.{Represents-same, is_bad_key-IsKey}
use cachelib_archive.Tmdb.Map.Insert.{
  insert_map, insert_map_present, Represents-map, store_found-Added, db_store-insert,
}
use cachelib_archive.Tmdb.Map.Replaced.{empty_value, db_store-overwrite}

-- What the store returns, given the mode and the value that the key has.
abbrev pub store_status : Mode → Option (List ℕ) → Status
store_status tdb_insert none = tdb_success
store_status tdb_insert (some v) = tdb_ok
store_status tdb_replace none = tdb_ok
store_status tdb_replace (some v) = tdb_success
store_status tdb_store o = tdb_success
store_status other o = tdb_error

-- The map behind it.
abbrev pub store_map :
    Mode → Option (List ℕ) → (List ℕ → Option (List ℕ)) → List ℕ → List ℕ → List ℕ → Option (List ℕ)
store_map tdb_insert none m key value = insert_map m key value
store_map tdb_insert (some v) m key value = m
store_map tdb_replace none m key value = m
store_map tdb_replace (some v) m key value = empty_value m key
store_map tdb_store none m key value = insert_map m key value
store_map tdb_store (some v) m key value = empty_value m key
store_map other o m key value = m

-- A replacement of what is not there is refused.
refused_run :
    (pad key value : List ℕ) (es : List Entry) (st : KeyStatus) (db : Tdb)
    → FoundAs es none (st, db)
    → store_found pad tdb_replace (st, db) key value ≡ (tdb_ok, unlock db)
unfolding store_found is_refused
refused_run pad key value [] st db f = rw f
refused_run pad key value (e ∷ es) st db f = rw f.0

-- No entry stands for a key that the map has not.
absent_entry : (o : Option Entry) → Option.map (λ e. e.value) o ≡ none → o ≡ none
absent_entry none h = refl
absent_entry (some e) h = absurd (ground arith)

module _ (fuel : ℕ) (pad : List ℕ) (db : Tdb) (m : List ℕ → Option (List ℕ)) (key value : List ℕ)
    (r : Represents db m) (k : IsKey key) (text : IsText value) (len : length value ≤ 4194304)
    (room : length pad ≡ 4) (h : db.idx.size ≤ head_len + 88 * fuel)
    (idx_fits : db.idx.size < 2 ^ 64) (dat_fits : db.dat.size < 2 ^ 32) where
  abbrev Stores : Mode → Option (List ℕ) → Type 0
  Stores mode o =
      (db' : Tdb) × (db_store fuel pad db (some key) (some value) mode
        ≡ returns (store_status mode o, db'))
      × Represents db' (store_map mode o m key value)

  -- The search for a key that the map has not, and what the store then does.
  absent_run :
      (mode : Mode)
      → is_known mode ≡ true
      → m key ≡ none
      → (st : KeyStatus) × (db1 : Tdb) × (db_store fuel pad db (some key) (some value) mode
          ≡ returns (store_found pad mode (st, db1) key value))
        × (find_entry key (r.chains (db_hash buckets key)) ≡ none)
        × FoundAs (r.chains (db_hash buckets key)) none (st, db1)
        × Kept db true (db_hash buckets key) db1
  unfolding db_store is_bad_store
  absent_run mode known absent =
      let b : ℕ = db_hash buckets key in
      let ((st, db1), found, as_found, kept) =
        db_find_and_lock-Finds fuel db key true r.nhash r.index (omega (arith, r.index.size)) in
      let small : ltb 4194304 (length value) ≡ false = ground arith in
      let none_there : find_entry key (r.chains b) ≡ none =
        absent_entry (find_entry key (r.chains b)) (r.gives key k ∙ absent) in
      (
        st,
        db1,
        rw (known, is_bad_key-IsKey key k, small, found, db_store) refl,
        none_there,
        subst (λ o. FoundAs (r.chains b) o (st, db1)) none_there as_found,
        kept,
      )

  insert-Stores : (o : Option (List ℕ)) → m key ≡ o → Stores tdb_insert o
  insert-Stores none e =
      let (db', run, rep, _, _) =
        db_store-insert fuel pad db m key value r k text len room h idx_fits (omega arith) in
      (db', rw e at run, rep)
  insert-Stores (some v) e =
      let (db', run, rep, _, _) =
        db_store-insert fuel pad db m key value r k text len room h idx_fits (omega arith) in
      (db', rw e at run, Represents-map db' rep (λ j. sym (insert_map_present m key value v e j)))

  store-Stores : length key < 64 → (o : Option (List ℕ)) → m key ≡ o → Stores tdb_store o
  unfolding is_refused
  store-Stores short (some v) e =
      let (db', run, rep, _) =
        db_store-overwrite fuel pad db m key value v tdb_store r k short e text len h dat_fits
          (inr refl) in
      (db', run, rep)
  store-Stores short none e =
      let (st, db1, run, there, as_found, kept) = absent_run tdb_store refl e in
      let (db', run', rep, _, _) =
        store_found-Added db m pad key value r room k text len idx_fits (omega arith) tdb_store st
          db1 (refl, refl) there as_found kept in
      (db', run ∙ run', rep)

  replace-Stores : length key < 64 → (o : Option (List ℕ)) → m key ≡ o → Stores tdb_replace o
  unfolding unlock
  replace-Stores short (some v) e =
      let (db', run, rep, _) =
        db_store-overwrite fuel pad db m key value v tdb_replace r k short e text len h dat_fits
          (inl refl) in
      (db', run, rep)
  replace-Stores short none e =
      let (st, db1, run, there, as_found, kept) = absent_run tdb_replace refl e in
      (
        unlock db1,
        run
            ∙ ap returns
                (refused_run pad key value (r.chains (db_hash buckets key)) st db1 as_found),
        Represents-same (unlock db1) r kept.idx_file kept.dat_file kept.nhash,
      )

  by_mode : length key < 64 → (mode : Mode) (o : Option (List ℕ)) → m key ≡ o → Stores mode o
  unfolding db_store is_bad_store
  by_mode short tdb_insert o e = insert-Stores o e
  by_mode short tdb_replace o e = replace-Stores short o e
  by_mode short tdb_store o e = store-Stores short o e
  by_mode short other o e = (db, refl, r)

-- On a database that stands for a map, `_db_store` returns in every mode within as many rounds as
-- the index file has key records, with the status and a database that stands for the map which the
-- mode asks for: a new key is added under `TDB_INSERT` and `TDB_STORE` and left under `TDB_REPLACE`;
-- a key that is there keeps its value under `TDB_INSERT`, and loses it to the empty string under the
-- other two; any other mode is an error and changes nothing. The key has 1 to 63 bytes and the value
-- at most 4 MB, none of them a NUL, the key does not end in white space, the index file is shorter
-- than 2 ^ 64 bytes and the data file than 2 ^ 32.
pub db_store-mode :
    (fuel : ℕ) (pad : List ℕ) (db : Tdb) (m : List ℕ → Option (List ℕ)) (key value : List ℕ)
    (mode : Mode)
    → Represents db m
    → IsKey key
    → length key < 64
    → IsText value
    → length value ≤ 4194304
    → length pad ≡ 4
    → db.idx.size ≤ head_len + 88 * fuel
    → db.idx.size < 2 ^ 64
    → db.dat.size < 2 ^ 32
    → (db' : Tdb) × (db_store fuel pad db (some key) (some value) mode
        ≡ returns (store_status mode (m key), db'))
      × Represents db' (store_map mode (m key) m key value)
db_store-mode fuel pad db m key value mode r k short text len room h idx_fits dat_fits =
    by_mode fuel pad db m key value r k text len room h idx_fits dat_fits short mode (m key) refl
