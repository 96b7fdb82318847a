-- ===== src/Backend/Sql/Tests.antt =====
-- A database of one row, which every query finds and every statement puts there.
use cachelib_archive.Base.{ℕ, ◌≡◌, refl, subst, true, none, some, List, [], ◌∷◌, arith}
use cachelib_archive.Base.Text.{codes}
use cachelib_archive.Backend.Packing.{AllSized}
use cachelib_archive.Backend.{
  AutoIncCache, IsSendable, to_string, int_string, digits_of, full_key, pack_values, invalidate_all,
}
use cachelib_archive.Backend.Tests.{one_slot}
use cachelib_archive.Backend.Freshness.{IsFresh}
use cachelib_archive.Backend.Sql.{
  Rows, row, sqlite_result, mysql_result, sqlite_read_record, mysql_read_record, sqlite_update,
  SqlDatabase, SqlBackend, generate_read_sql, generate_insert_sql, quoted, sqlite_insert_record,
  mysql_insert_record,
}
use cachelib_archive.Backend.Sql.Coherence.{IsCoherent, sql_backends-read, sql_insert_record-read}

abbrev fields : List (List ℕ)
fields = codes "ab" ∷ codes "cd" ∷ []

abbrev one_row : SqlDatabase
one_row = record { State = Rows; query = λ s sql. s; update = λ s sql. (true, row fields) }

abbrev backend : SqlBackend one_slot one_row
backend = record {
  cache = record { counter = 0; subpool_name = codes "t"; client = some none };
  cache_enabled = true;
  hit_count = 0;
  table_name = codes "t0";
  disk = row fields;
}

backend-IsFresh : IsFresh one_slot backend.cache
backend-IsFresh s n rest v e later small h = ground arith

insert_text :
    generate_insert_sql (codes "t0") 7 fields ≡ codes "INSERT INTO t0 VALUES (7, 'ab', 'cd')"
unfolding generate_insert_sql quoted to_string digits_of
insert_text = refl

-- The query and the row under a counter.
fields_CanSend :
    (c : AutoIncCache one_slot)
    → IsSendable 500 (full_key one_slot c (generate_read_sql (codes "t0") 7)) (pack_values fields)
    → (r : List (List ℕ)) → row fields ≡ row r
    → AllSized 2 r
      × IsSendable 500 (full_key one_slot c (generate_read_sql (codes "t0") 7)) (pack_values r)
fields_CanSend c sends r h =
    let is : fields ≡ r = ground arith in
    subst
      (λ (x : List (List ℕ)).
        AllSized 2 x
        × IsSendable 500 (full_key one_slot c (generate_read_sql (codes "t0") 7)) (pack_values x))
      is ((refl, (refl, tt)), sends)

sql_backends-read_example :
    ((sqlite_read_record one_slot one_row 2 backend 7).0 ≡ some fields)
    × ((mysql_read_record one_slot one_row 2 backend 7).0 ≡ some (some fields))
    × IsCoherent one_slot one_row (sqlite_read_record one_slot one_row 2 backend 7).1
    × IsCoherent one_slot one_row (mysql_read_record one_slot one_row 2 backend 7).1
    × ((sqlite_read_record one_slot one_row 2 backend 7).1.disk ≡ row fields)
    × ((mysql_read_record one_slot one_row 2 backend 7).1.disk ≡ row fields)
unfolding full_key int_string to_string digits_of generate_read_sql pack_values sqlite_result
    mysql_result
sql_backends-read_example =
    sql_backends-read one_slot one_row 2 backend 7 ((λ s t v e h. ground arith), backend-IsFresh)
      (omega arith) ((omega arith), (omega arith), fields_CanSend backend.cache (omega arith))

sql_insert_record-read_example :
    ((sqlite_read_record one_slot one_row 2
        (sqlite_insert_record one_slot one_row backend 8 fields).1
        7).0
      ≡ some fields)
    × ((mysql_read_record one_slot one_row 2
          (mysql_insert_record one_slot one_row backend 8 fields).1
          7).0
        ≡ some (some fields))
unfolding full_key int_string to_string digits_of generate_read_sql pack_values sqlite_result
    mysql_result sqlite_insert_record sqlite_update invalidate_all
sql_insert_record-read_example =
    sql_insert_record-read one_slot one_row 2 backend 8 fields 7 backend-IsFresh (omega arith)
      (omega arith)
      (
        (omega arith),
        (omega arith),
        fields_CanSend (record backend.cache { counter = 1 }) (omega arith),
      )
