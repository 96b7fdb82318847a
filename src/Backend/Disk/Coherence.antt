-- ===== src/Backend/Disk/Coherence.antt =====
-- `TmdbBackend` over the files of tmdb: reads and insertions against the map that these stand for.
use cachelib_archive.Base.{
  ℕ, ◌+◌, ◌*◌, ◌^◌, ◌<◌, ◌≤◌, ◌≡◌, inl, inr, refl, sym, ap, subst, ◌∙◌, Option, none, some, List,
  [], ◌∷◌, length, ltb, ◌==◌, arith, true, false, Bool-cases,
}
use cachelib_archive.CString.{str_eq}
use cachelib_archive.CString.Laws.{str_eq_iff}
use cachelib_archive.Tmdb.Handle.{Run, returns, undefined, Tdb, tdb_insert}
use cachelib_archive.Tmdb.Records.{head_len}
use cachelib_archive.Tmdb.Fetch.{tdb_store, db_fetch, tdb_fetch, string_of}
use cachelib_archive.Tmdb.Map.{Represents}
use cachelib_archive.Tmdb.Map.Lookup.{db_fetch-lookup, fetched}
use cachelib_archive.Tmdb.Map.Insert.{db_store-insert, insert_map, insert_status}
use cachelib_archive.Backend.{
  Client, AutoIncCache, IsSendable, to_string, cache_set, cache_get, full_key,
}
use cachelib_archive.Backend.Agreement.{Agrees, cache_set-Agrees, cache_get-Agrees, full_key-get}
use cachelib_archive.Backend.Disk.{
  TmdbBackend, tmdb_keep, after_store, tmdb_insert_record, after_fetch, tmdb_fetch_record,
  tmdb_read_record,
}
use cachelib_archive.Backend.Numbers.{to_string-IsKey}

module _ (lib : Client) where
  -- The files stand for the map, and the cache answers with nothing else.
  abbrev pub Stands : TmdbBackend lib → (List ℕ → Option (List ℕ)) → Type 0
  Stands b m = Represents b.db m × Agrees lib b.cache m

  abbrev pub CanSend : TmdbBackend lib → List ℕ → List ℕ → Type 0
  CanSend b t value = IsSendable lib.room (full_key lib b.cache t) value

  tmdb_keep-Agrees :
      (b : TmdbBackend lib) (m : List ℕ → Option (List ℕ)) (t v : List ℕ)
      → Agrees lib b.cache m
      → m t ≡ some v
      → CanSend b t v
      → Agrees lib (tmdb_keep lib b t v).cache m
  unfolding tmdb_keep
  tmdb_keep-Agrees b m t v co d f = elim (Bool-cases b.cache_enabled) [
    | inl on ↦
        let e : tmdb_keep lib b t v ≡ record b { cache = (cache_set lib b.cache t v).1 } =
          ground arith in
        subst (λ (x : TmdbBackend lib). Agrees lib x.cache m) (sym e)
          (cache_set-Agrees lib b.cache m t v co d f)
    | inr off ↦
        let e : tmdb_keep lib b t v ≡ b = ground arith in
        subst (λ (x : TmdbBackend lib). Agrees lib x.cache m) (sym e) co
  ]

  tmdb_keep-db : (b : TmdbBackend lib) (t v : List ℕ) → (tmdb_keep lib b t v).db ≡ b.db
  unfolding tmdb_keep
  tmdb_keep-db b t v = ground arith

  abbrev IsReadAs :
      TmdbBackend lib
      → (List ℕ → Option (List ℕ))
      → List ℕ
      → Run (List (List ℕ) × TmdbBackend lib)
      → Type 0
  IsReadAs b m v run = (b' : TmdbBackend lib) × (run ≡ returns (v ∷ [], b')) × Stands b' m

  tmdb_fetch_record-IsReadAs :
      (fuel : ℕ) (b : TmdbBackend lib) (m : List ℕ → Option (List ℕ)) (key : ℕ) (v : List ℕ)
      → Stands b m
      → key < 2147483648
      → m (to_string key) ≡ some v
      → CanSend b (to_string key) v
      → b.db.idx.size ≤ head_len + 88 * fuel
      → IsReadAs b m v (tmdb_fetch_record lib fuel b key)
  unfolding tmdb_fetch_record after_fetch tdb_fetch string_of
  tmdb_fetch_record-IsReadAs fuel b m key v (r, co) small found send h =
      let t = to_string key in
      let (db, run, rep, _, _) = db_fetch-lookup fuel b.db m t r (to_string-IsKey key small) h in
      let short : (length v == 4194304) ≡ false = let (_, _, _, l) = send in ground arith in
      let got : db_fetch fuel b.db (some t) ≡ returns (some v, db) =
        rw short at (run ∙ ap (λ (x : Option (List ℕ)). fetched x db) found) in
      let b' : TmdbBackend lib = record b { db = db } in
      (
        tmdb_keep lib b' t v,
        (rw got),
        (
          subst (λ (x : Tdb). Represents x m) (sym (tmdb_keep-db b' t v)) rep,
          tmdb_keep-Agrees b' m t v co found send,
        ),
      )

  -- A read of a key that the files have gives its value, from the cache or from the files, and
  -- leaves files that stand for the same map with a cache that agrees with it.
  pub tmdb_read_record-Stands :
      (fuel : ℕ) (b : TmdbBackend lib) (m : List ℕ → Option (List ℕ)) (key : ℕ) (v : List ℕ)
      → Stands b m
      → key < 2147483648
      → m (to_string key) ≡ some v
      → CanSend b (to_string key) v
      → b.db.idx.size ≤ head_len + 88 * fuel
      → IsReadAs b m v (tmdb_read_record lib fuel b key)
  unfolding tmdb_read_record
  tmdb_read_record-Stands fuel b m key v (r, co) small found send h =
      let t = to_string key in
      elim (Bool-cases b.cache_enabled) [
        | inr off ↦
            let e : tmdb_read_record lib fuel b key ≡ tmdb_fetch_record lib fuel b key =
              ground arith in
            subst (IsReadAs b m v) (sym e)
              (tmdb_fetch_record-IsReadAs fuel b m key v (r, co) small found send h)
        | inl on ↦
            let c = cache_get lib b.cache t in
            let (answer, co') = cache_get-Agrees lib b.cache m t co send.0 send.2 in
            elim (Bool-cases (ltb 0 (length c.0))) [
              | inl hit ↦
                  let e : tmdb_read_record lib fuel b key
                      ≡ returns (c.0 ∷ [], record b { cache = c.1; hit_count = b.hit_count + 1 }) =
                    ground arith in
                  let is : c.0 ≡ v = ground arith in
                  (
                    record b { cache = c.1; hit_count = b.hit_count + 1 },
                    (e
                        ∙ ap
                            (λ (x : List ℕ).
                              returns
                                (x ∷ [], record b { cache = c.1; hit_count = b.hit_count + 1 }))
                            is),
                    (r, co'),
                  )
              | inr miss ↦
                  let b' : TmdbBackend lib = record b { cache = c.1 } in
                  let e : tmdb_read_record lib fuel b key ≡ tmdb_fetch_record lib fuel b' key =
                    ground arith in
                  subst (IsReadAs b m v) (sym e) (
                    tmdb_fetch_record-IsReadAs fuel b' m key v (r, co') small found
                      (rw (full_key-get lib b.cache t t) send) h)
            ]
      ]

  -- With the cache off, a read of a key that the files have not is undefined: a `std::string` is built
  -- from NULL.
  pub tmdb_read_record-missing :
      (fuel : ℕ) (b : TmdbBackend lib) (m : List ℕ → Option (List ℕ)) (key : ℕ)
      → Represents b.db m
      → b.cache_enabled ≡ false
      → key < 2147483648
      → m (to_string key) ≡ none
      → b.db.idx.size ≤ head_len + 88 * fuel
      → tmdb_read_record lib fuel b key ≡ undefined
  unfolding tmdb_read_record tmdb_fetch_record tdb_fetch string_of
  tmdb_read_record-missing fuel b m key r off small absent h =
      let (db, run, rep, _, _) =
        db_fetch-lookup fuel b.db m (to_string key) r (to_string-IsKey key small) h in
      let got = run ∙ ap (λ (x : Option (List ℕ)). fetched x db) absent in
      let e : tmdb_read_record lib fuel b key ≡ tmdb_fetch_record lib fuel b key = ground arith in
      e ∙ rw got

  insert-Agrees :
      (c : AutoIncCache lib) (m : List ℕ → Option (List ℕ)) (t v : List ℕ)
      → Agrees lib c m
      → Agrees lib c (insert_map m t v)
  insert-Agrees c m t v co s k w e h = let old = co s k w e h in ground arith

  -- An insertion under a key that the files have not returns true, adds the key to the map that the
  -- files stand for, and leaves a cache that agrees with it.
  pub tmdb_insert_record-Stands :
      (fuel : ℕ) (pad : List ℕ) (b : TmdbBackend lib) (m : List ℕ → Option (List ℕ)) (key : ℕ)
      (v : List ℕ) (vs : List (List ℕ))
      → Stands b m
      → key < 2147483648
      → m (to_string key) ≡ none
      → CanSend b (to_string key) v
      → length pad ≡ 4
      → b.db.idx.size ≤ head_len + 88 * fuel
      → b.db.idx.size < 2 ^ 64
      → b.db.dat.size < 2 ^ 64
      → (b' : TmdbBackend lib) × (tmdb_insert_record lib fuel pad b key (v ∷ vs)
          ≡ returns (true, b'))
        × Stands b' (insert_map m (to_string key) v)
  unfolding tmdb_insert_record after_store tdb_store
  tmdb_insert_record-Stands fuel pad b m key v vs (r, co) small absent send room h fi fd =
      let t = to_string key in
      let kept = tmdb_keep lib b t v in
      let (db, run, rep, _, _) =
        db_store-insert fuel pad b.db m t v r (to_string-IsKey key small) send.1 (omega arith) room
          h fi fd in
      let run' =
        subst
          (λ (x : Tdb).
            tdb_store fuel pad x (some t) (some v) tdb_insert ≡ returns (insert_status (m t), db))
          (sym (tmdb_keep-db b t v)) run in
      let same : str_eq t t ≡ true = (str_eq_iff t t).1 refl in
      let there : insert_map m t v t ≡ some v = ground arith in
      let co' =
        tmdb_keep-Agrees b (insert_map m t v) t v (insert-Agrees b.cache m t v co) there send in
      (record kept { db = db }, (rw run'), (rep, co'))
