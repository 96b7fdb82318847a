-- ===== src/Tmdb/Map/Reopened.antt =====
-- A value that one handle stores, and a handle that is opened on the files later.
use cachelib_archive.Base.{
  ℕ, suc, ◌+◌, ◌*◌, ◌^◌, ◌≤◌, ◌<◌, ◌≡◌, refl, ap, ◌∙◌, ◌⊎◌, true, false, Option, none, some, List,
  length, ◌==◌, arith,
}
use cachelib_archive.CString.{str_eq}
use cachelib_archive.CString.Laws.{IsText, str_eq_iff}
use cachelib_archive.Tmdb.Handle.{returns, Tdb, tdb_success, tdb_insert}
use cachelib_archive.Tmdb.Store.{db_store}
use cachelib_archive.Tmdb.Fetch.{db_fetch}
use cachelib_archive.Tmdb.Open.{OpenMode, mode_r, mode_w, db_open}
use cachelib_archive.Tmdb.Records.{IsKey, head_len}
use cachelib_archive.Tmdb.Map.{Represents}
use cachelib_archive.Tmdb.Map.Lookup.{fetched, db_fetch-lookup}
use cachelib_archive.Tmdb.Map.Insert.{insert_map, db_store-insert}
use cachelib_archive.Tmdb.Map.Create.{opened_for, db_open-reopen}

-- A new key that `_db_store` puts in the files is there for later: `_db_open` in mode "r" gives a
-- handle for reading only, in mode "w" one for reading and writing, on the files as the store left
-- them, and `_db_fetch` returns the value through it. The value is shorter than 4194304 bytes; else
-- the conditions are those of the store.
pub db_open-stored :
    (fuel : ℕ) (pad : List ℕ) (db : Tdb) (m : List ℕ → Option (List ℕ)) (key value : List ℕ)
    (mode : OpenMode)
    → Represents db m
    → IsKey key
    → IsText value
    → length value < 4194304
    → length pad ≡ 4
    → db.idx.size ≤ head_len + 88 * fuel
    → db.idx.size < 2 ^ 64
    → db.dat.size < 2 ^ 64
    → m key ≡ none
    → (mode ≡ mode_r) ⊎ (mode ≡ mode_w)
    → (stored opened read : Tdb) × (db_store fuel pad db (some key) (some value) tdb_insert
        ≡ returns (tdb_success, stored))
      × (db_open (some stored.idx.file) (some stored.dat.file) mode
          ≡ returns (opened_for mode opened))
      × (db_fetch (suc fuel) opened (some key) ≡ returns (some value, read))
db_open-stored fuel pad db m key value mode r k text short room h idx_fits dat_fits absent way =
    let (s, run, rep, _, size) =
      db_store-insert fuel pad db m key value r k text (omega arith) room h idx_fits dat_fits in
    let (o, run', rep', same) = db_open-reopen s (insert_map m key value) mode rep way in
    let (f, run'', _, _, _) =
      db_fetch-lookup (suc fuel) o (insert_map m key value) key rep' k
        (omega (arith, size, ap (λ g. g.size) same)) in
    let here : str_eq key key ≡ true = (str_eq_iff key key).1 refl in
    let found : insert_map m key value key ≡ some value = rw (here, absent) in
    let fits : (length value == 4194304) ≡ false = ground arith in
    (s, o, f, rw absent at run, run', rw fits at (run'' ∙ ap (λ x. fetched x f) found))
