-- ===== src/Backend/Sql.antt =====
-- The backends over an SQL database: backend/src/backend/SQLiteBackend.cpp and
-- backend/src/backend/MysqlBackend.cpp. The database is a parameter.
use cachelib_archive.Base.{
  ℕ, zero, suc, ◌+◌, Bool, true, false, Option, none, some, List, [], ◌∷◌, ◌++◌, length, ltb,
  if◌then◌else◌,
}
use cachelib_archive.Base.Text.{codes}
use cachelib_archive.Backend.{
  Client, AutoIncCache, to_string, cache_set, cache_get, invalidate_all, pack_values, unpack_values,
}
pub mod Coherence
mod Tests

-- How a query ends: with the fields of its first row, with no row, or with an error.
pub data Rows : Type 0 where
  row : List (List ℕ) → Rows
  no_row failed : Rows

-- What a backend uses of a database: what a query gives, and whether a statement is carried out.
pub record SqlDatabase : Type 1 where
  pub State : Type 0
  pub query : State → List ℕ → Rows
  pub update : State → List ℕ → Bool × State

-- `generate_read_sql`, the same in both backends.
unfoldable pub generate_read_sql : List ℕ → ℕ → List ℕ
generate_read_sql table_name key =
    codes "SELECT * FROM "
    ++ (table_name ++ (codes " WHERE ycsb_key = " ++ (to_string key ++ codes ";")))

-- The loop over the values.
unfoldable pub quoted : List (List ℕ) → List ℕ
quoted [] = []
quoted (value ∷ values) = codes ", '" ++ (value ++ (codes "'" ++ quoted values))

unfoldable pub generate_insert_sql : List ℕ → ℕ → List (List ℕ) → List ℕ
generate_insert_sql table_name key values =
    codes "INSERT INTO "
    ++ (table_name ++ (codes " VALUES (" ++ (to_string key ++ (quoted values ++ codes ")"))))

-- The columns from number `i` on, `n` of them.
unfoldable pub columns : ℕ → ℕ → ℕ → List ℕ
columns zero i size = []
columns (suc n) i size =
    codes ", field"
    ++ (to_string i
        ++ (codes " varchar(" ++ (to_string size ++ (codes ")" ++ columns n (i + 1) size))))

unfoldable pub create_table_sql : List ℕ → ℕ → ℕ → List ℕ
create_table_sql table_name max_fields size =
    codes "CREATE TABLE "
    ++ (table_name
        ++ (codes " (ycsb_key int PRIMARY KEY" ++ (columns max_fields 1 size ++ codes ");")))

unfoldable pub drop_table_sql : List ℕ → List ℕ
drop_table_sql table_name = codes "DROP TABLE IF EXISTS " ++ (table_name ++ codes ";")

unfoldable pub delete_sql : List ℕ → ℕ → List ℕ
delete_sql table_name max_records =
    codes "DELETE FROM " ++ (table_name ++ (codes " WHERE ycsb_key >= " ++ to_string max_records))

-- What SQLite's `read_record` returns: an error is false, as no row is.
unfoldable pub sqlite_result : Rows → Option (List (List ℕ))
sqlite_result (row fields) = some fields
sqlite_result no_row = none
sqlite_result failed = none

-- MySQL's: the outer `none` is the exception of `executeQuery`, which leaves `read_record`.
unfoldable pub mysql_result : Rows → Option (Option (List (List ℕ)))
mysql_result (row fields) = some (some fields)
mysql_result no_row = some none
mysql_result failed = none

module _ (lib : Client) (db : SqlDatabase) where
  pub record SqlBackend : Type 0 where
    pub cache : AutoIncCache lib
    pub cache_enabled : Bool
    pub hit_count : ℕ
    pub table_name : List ℕ
    pub disk : db.State

  unfoldable pub sql_keep : SqlBackend → List ℕ → List ℕ → SqlBackend
  sql_keep b sql value =
      if b.cache_enabled then record b { cache = (cache_set lib b.cache sql value).1 } else b

  -- Behind the cache: the row goes to the caller and, packed, to the cache.
  unfoldable pub sql_query : SqlBackend → List ℕ → Rows × SqlBackend
  sql_query b sql = elim (db.query b.disk sql) [
    | row fields ↦ (row fields, sql_keep b sql (pack_values fields))
    | no_row ↦ (no_row, b)
    | failed ↦ (failed, b)
  ]

  -- `read_record` on a vector that is empty, by what it comes to: a row, which is true, no row, or the
  -- error of the query.
  unfoldable pub sql_read_record : ℕ → SqlBackend → ℕ → Rows × SqlBackend
  sql_read_record size b key = elim b.cache_enabled [
    | false ↦ sql_query b (generate_read_sql b.table_name key)
    | true ↦
        let r = cache_get lib b.cache (generate_read_sql b.table_name key) in
        elim (ltb 0 (length r.0)) [
          | true ↦
              (row (unpack_values r.0 size), record b { cache = r.1; hit_count = b.hit_count + 1 })
          | false ↦ sql_query (record b { cache = r.1 }) (generate_read_sql b.table_name key)
        ]
  ]

  unfoldable pub sqlite_read_record : ℕ → SqlBackend → ℕ → Option (List (List ℕ)) × SqlBackend
  sqlite_read_record size b key = let r = sql_read_record size b key in (sqlite_result r.0, r.1)

  unfoldable pub mysql_read_record :
      ℕ → SqlBackend → ℕ → Option (Option (List (List ℕ))) × SqlBackend
  mysql_read_record size b key = let r = sql_read_record size b key in (mysql_result r.0, r.1)

  -- `execute_update` of SQLite: false where `sqlite3_exec` reports an error.
  unfoldable pub sqlite_update : SqlBackend → List ℕ → Bool × SqlBackend
  sqlite_update b sql = let r = db.update b.disk sql in (r.0, record b { disk = r.1 })

  unfoldable pub sqlite_insert_record : SqlBackend → ℕ → List (List ℕ) → Bool × SqlBackend
  sqlite_insert_record b key values =
      sqlite_update (record b { cache = invalidate_all lib b.cache })
        (generate_insert_sql b.table_name key values)

  -- The results of the two statements are dropped.
  unfoldable pub sqlite_create_database : ℕ → ℕ → SqlBackend → SqlBackend
  sqlite_create_database max_fields size b =
      let dropped = (sqlite_update b (drop_table_sql b.table_name)).1 in
      (sqlite_update dropped (create_table_sql b.table_name max_fields size)).1

  unfoldable pub sqlite_clean_up : ℕ → SqlBackend → SqlBackend
  sqlite_clean_up max_records b = (sqlite_update b (delete_sql b.table_name max_records)).1

  -- How a call of MySQL ends; an exception leaves what was done before it.
  unfoldable pub mysql_update : SqlBackend → List ℕ → Option Bool × SqlBackend
  mysql_update b sql =
      let r = db.update b.disk sql in (if r.0 then some true else none, record b { disk = r.1 })

  unfoldable pub mysql_insert_record : SqlBackend → ℕ → List (List ℕ) → Option Bool × SqlBackend
  mysql_insert_record b key values =
      mysql_update (record b { cache = invalidate_all lib b.cache })
        (generate_insert_sql b.table_name key values)

  -- One statement after the other, until one throws.
  unfoldable pub mysql_execute_all : SqlBackend → List (List ℕ) → Option Bool × SqlBackend
  mysql_execute_all b [] = (some true, b)
  mysql_execute_all b (sql ∷ rest) =
      let r = mysql_update b sql in
      elim r.0 [ none ↦ (none, r.1) | some ok ↦ mysql_execute_all r.1 rest ]

  unfoldable pub mysql_create_database : ℕ → ℕ → SqlBackend → Option Bool × SqlBackend
  mysql_create_database max_fields size b = mysql_execute_all b (
      codes "SET @OLD_UNIQUE_CHECKS=@@UNIQUE_CHECKS, UNIQUE_CHECKS=0;"
      ∷ codes "SET @OLD_FOREIGN_KEY_CHECKS=@@FOREIGN_KEY_CHECKS, FOREIGN_KEY_CHECKS=0;"
      ∷ drop_table_sql b.table_name
      ∷ create_table_sql b.table_name max_fields size
      ∷ codes "SET FOREIGN_KEY_CHECKS=@OLD_FOREIGN_KEY_CHECKS;"
      ∷ codes "SET UNIQUE_CHECKS=@OLD_UNIQUE_CHECKS;"
      ∷ [])

  unfoldable pub mysql_clean_up : ℕ → SqlBackend → Option Bool × SqlBackend
  mysql_clean_up max_records b = mysql_update b (delete_sql b.table_name max_records)
