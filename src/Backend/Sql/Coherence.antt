-- ===== src/Backend/Sql/Coherence.antt =====
-- The cache in front of an SQL database: a read gives the row that the database gives, and an
-- insertion puts every earlier answer out of reach.
use cachelib_archive.Base.{
  if◌then◌else◌, true, ℕ, ◌+◌, ◌^◌, ◌<◌, ◌≡◌, inl, inr, refl, sym, ap, subst, ◌∙◌, Option, none,
  some, List, length, ltb, arith, Bool-cases,
}
use cachelib_archive.CString.Laws.{IsText}
use cachelib_archive.Backend.{
  Client, IsSendable, cache_set, cache_get, full_key, pack_values, unpack_values,
}
use cachelib_archive.Backend.Packing.{AllSized, unpack-pack}
use cachelib_archive.Backend.Agreement.{Agrees, cache_set-Agrees, cache_get-Agrees, full_key-get}
use cachelib_archive.Backend.Freshness.{
  IsFresh, cache_set-IsFresh, cache_get-IsFresh, invalidate_all-Agrees,
}
use cachelib_archive.Backend.Sql.{
  SqlDatabase, Rows, row, no_row, failed, SqlBackend, generate_read_sql, generate_insert_sql,
  sql_keep, sql_query, sql_read_record, sqlite_result, mysql_result, sqlite_read_record,
  mysql_read_record, sqlite_update, sqlite_insert_record, mysql_update, mysql_insert_record,
}

abbrev pub packed : Rows → Option (List ℕ)
packed (row fields) = some (pack_values fields)
packed no_row = none
packed failed = none

module _ (lib : Client) (db : SqlDatabase) where
  -- The cache answers with the packed row that the database gives, and has nothing under counters
  -- to come.
  abbrev pub IsCoherent : SqlBackend lib db → Type 0
  IsCoherent b = Agrees lib b.cache (λ sql. packed (db.query b.disk sql)) × IsFresh lib b.cache

  -- The query can be sent to the cache; the row that the database gives can be sent too, and its
  -- fields have `size` bytes each.
  abbrev pub CanSend : ℕ → SqlBackend lib db → List ℕ → Type 0
  CanSend size b sql =
      IsText (full_key lib b.cache sql)
      × (length (full_key lib b.cache sql) < lib.room)
      × ((fields : List (List ℕ))
          → db.query b.disk sql ≡ row fields
          → AllSized size fields
            × IsSendable lib.room (full_key lib b.cache sql) (pack_values fields))

  abbrev pub IsRead : SqlBackend lib db → List ℕ → Rows × SqlBackend lib db → Type 0
  IsRead b sql (results, b') = (results ≡ db.query b.disk sql) × IsCoherent b' × (b'.disk ≡ b.disk)

  sql_keep-IsCoherent :
      (b : SqlBackend lib db) (sql : List ℕ) (fields : List (List ℕ))
      → IsCoherent b
      → db.query b.disk sql ≡ row fields
      → IsSendable lib.room (full_key lib b.cache sql) (pack_values fields)
      → IsCoherent (sql_keep lib db b sql (pack_values fields))
        × ((sql_keep lib db b sql (pack_values fields)).disk ≡ b.disk)
  unfolding sql_keep
  sql_keep-IsCoherent b sql fields (co, fresh) found send = elim (Bool-cases b.cache_enabled) [
    | inl on ↦
        let b' : SqlBackend lib db = record b {
          cache = (cache_set lib b.cache sql (pack_values fields)).1;
        } in
        let e : sql_keep lib db b sql (pack_values fields) ≡ b' = ground arith in
        subst (λ (x : SqlBackend lib db). IsCoherent x × (x.disk ≡ b.disk)) (sym e)
          (
            (
              cache_set-Agrees lib b.cache _ sql (pack_values fields) co (ap packed found) send,
              cache_set-IsFresh lib b.cache sql (pack_values fields) fresh send,
            ),
            refl,
          )
    | inr off ↦
        let e : sql_keep lib db b sql (pack_values fields) ≡ b = ground arith in
        subst (λ (x : SqlBackend lib db). IsCoherent x × (x.disk ≡ b.disk)) (sym e)
          ((co, fresh), refl)
  ]

  sql_query-IsRead :
      (b : SqlBackend lib db) (sql : List ℕ)
      → IsCoherent b
      → ((fields : List (List ℕ))
          → db.query b.disk sql ≡ row fields
          → IsSendable lib.room (full_key lib b.cache sql) (pack_values fields))
      → IsRead b sql (sql_query lib db b sql)
  unfolding sql_query
  sql_query-IsRead b sql co send = by_rows (db.query b.disk sql) refl
    where
      by_rows : (o : Rows) → db.query b.disk sql ≡ o → IsRead b sql (sql_query lib db b sql)
      by_rows no_row e = rw (e, sql_query) (refl, co, refl)
      by_rows failed e = rw (e, sql_query) (refl, co, refl)
      by_rows (row fields) e =
          let (co', same) = sql_keep-IsCoherent b sql fields co e (send fields e) in
          rw (e, sql_query) (refl, co', same)

  -- What the cache has is the row, packed.
  unpacked :
      (size : ℕ) (o : Rows) (v : List ℕ)
      → 0 < size
      → ((fields : List (List ℕ)) → o ≡ row fields → AllSized size fields)
      → packed o ≡ some v
      → row (unpack_values v size) ≡ o
  unpacked size no_row v pos sized h = absurd (ground arith)
  unpacked size failed v pos sized h = absurd (ground arith)
  unpacked size (row fields) v pos sized h =
      let is : pack_values fields ≡ v = ground arith in
      ap (λ (x : List ℕ). row (unpack_values x size)) (sym is)
      ∙ ap row (unpack-pack size fields pos (sized fields refl))

  -- What a read comes to is what the query of the database does, with the cache enabled or not; it
  -- leaves the database as it was, and the cache coherent with it.
  pub sql_read_record-IsRead :
      (size : ℕ) (b : SqlBackend lib db) (key : ℕ)
      → IsCoherent b
      → 0 < size
      → CanSend size b (generate_read_sql b.table_name key)
      → IsRead b (generate_read_sql b.table_name key) (sql_read_record lib db size b key)
  unfolding sql_read_record
  sql_read_record-IsRead size b key co pos (x, l, f) =
      let sql = generate_read_sql b.table_name key in
      elim (Bool-cases b.cache_enabled) [
        | inr off ↦
            let e : sql_read_record lib db size b key ≡ sql_query lib db b sql = ground arith in
            subst (IsRead b sql) (sym e) (sql_query-IsRead b sql co (λ fields h. (f fields h).1))
        | inl on ↦
            let r = cache_get lib b.cache sql in
            let (answer, co') =
              cache_get-Agrees lib b.cache (λ q. packed (db.query b.disk q)) sql co.0 x l in
            let fresh' = cache_get-IsFresh lib b.cache sql co.1 x l in
            elim (Bool-cases (ltb 0 (length r.0))) [
              | inl hit ↦
                  let b' : SqlBackend lib db = record b {
                    cache = r.1;
                    hit_count = b.hit_count + 1;
                  } in
                  let e : sql_read_record lib db size b key ≡ (row (unpack_values r.0 size), b') =
                    ground arith in
                  let found : packed (db.query b.disk sql) ≡ some r.0 = ground arith in
                  subst (IsRead b sql) (sym e) (
                    unpacked size (db.query b.disk sql) r.0 pos (λ fields h. (f fields h).0) found,
                    (co', fresh'),
                    refl,
                  )
              | inr miss ↦
                  let b' : SqlBackend lib db = record b { cache = r.1 } in
                  let e : sql_read_record lib db size b key ≡ sql_query lib db b' sql =
                    ground arith in
                  subst (IsRead b sql) (sym e) (
                    sql_query-IsRead b' sql (co', fresh')
                      (λ fields h. rw (full_key-get lib b.cache sql sql) (f fields h).1))
            ]
      ]

  -- A read of a coherent backend, on a query that can be sent to the cache, and whose row can be sent
  -- too and has `size` bytes, other than 0, in every field: what SQLite's `read_record` and MySQL's
  -- give is what the query of the database comes to, with the cache enabled or not. An error of the
  -- database is false with SQLite, and an exception with MySQL. The database stays as it was, and the
  -- cache coherent with it.
  pub sql_backends-read :
      (size : ℕ) (b : SqlBackend lib db) (key : ℕ)
      → IsCoherent b
      → 0 < size
      → CanSend size b (generate_read_sql b.table_name key)
      → ((sqlite_read_record lib db size b key).0
          ≡ sqlite_result (db.query b.disk (generate_read_sql b.table_name key)))
        × ((mysql_read_record lib db size b key).0
            ≡ mysql_result (db.query b.disk (generate_read_sql b.table_name key)))
        × IsCoherent (sqlite_read_record lib db size b key).1
        × IsCoherent (mysql_read_record lib db size b key).1
        × ((sqlite_read_record lib db size b key).1.disk ≡ b.disk)
        × ((mysql_read_record lib db size b key).1.disk ≡ b.disk)
  unfolding sqlite_read_record mysql_read_record
  sql_backends-read size b key co pos send =
      let (results, co', same) = sql_read_record-IsRead size b key co pos send in
      (ap sqlite_result results, ap mysql_result results, co', co', same, same)

  -- An insertion leaves a cache that answers with nothing that was stored before.
  pub sql_insert_record-IsCoherent :
      (b : SqlBackend lib db) (key : ℕ) (values : List (List ℕ))
      → IsFresh lib b.cache
      → b.cache.counter + 1 < 2 ^ 31
      → IsCoherent (sqlite_insert_record lib db b key values).1
        × ((sqlite_insert_record lib db b key values).0
            ≡ (db.update b.disk (generate_insert_sql b.table_name key values)).0)
        × IsCoherent (mysql_insert_record lib db b key values).1
        × ((mysql_insert_record lib db b key values).0 ≡ (
            if (db.update b.disk (generate_insert_sql b.table_name key values)).0
            then some true
            else none))
  unfolding sqlite_insert_record sqlite_update mysql_insert_record mysql_update
  sql_insert_record-IsCoherent b key values fresh room = (
    invalidate_all-Agrees lib b.cache _ fresh room,
    refl,
    invalidate_all-Agrees lib b.cache _ fresh room,
    refl,
  )

  -- An insertion, carried out by the database or not, and a read of any key behind it: the read gives
  -- what the query comes to in the database as it is then, with nothing that was cached before. The
  -- cache has nothing under counters to come, its counter is below the last value, and the query can
  -- be sent to the cache, as can the row, with `size` bytes, other than 0, in every field.
  pub sql_insert_record-read :
      (size : ℕ) (b : SqlBackend lib db) (key : ℕ) (values : List (List ℕ)) (k : ℕ)
      → IsFresh lib b.cache
      → b.cache.counter + 1 < 2 ^ 31
      → 0 < size
      → CanSend size (sqlite_insert_record lib db b key values).1 (generate_read_sql b.table_name k)
      → ((sqlite_read_record lib db size (sqlite_insert_record lib db b key values).1 k).0
          ≡ sqlite_result (
              db.query
                (db.update b.disk (generate_insert_sql b.table_name key values)).1
                (generate_read_sql b.table_name k)))
        × ((mysql_read_record lib db size (mysql_insert_record lib db b key values).1 k).0
            ≡ mysql_result (
                db.query
                  (db.update b.disk (generate_insert_sql b.table_name key values)).1
                  (generate_read_sql b.table_name k)))
  unfolding sqlite_insert_record sqlite_update mysql_insert_record mysql_update
  sql_insert_record-read size b key values k fresh room pos send =
      let (co, _, _, _) = sql_insert_record-IsCoherent b key values fresh room in
      let (one, two, _, _, _, _) =
        sql_backends-read size (sqlite_insert_record lib db b key values).1 k co pos send in
      (one, two)
