-- ===== src/Backend/Mongo.antt =====
-- The backend over MongoDB: backend/src/backend/MongoDBBackend.cpp. The documents with their JSON
-- texts, and the collection, are parameters.
use cachelib_archive.Base.{
  ℕ, zero, suc, ◌+◌, Bool, true, false, Option, none, some, List, [], ◌∷◌, ◌++◌, length, ltb,
  if◌then◌else◌,
}
use cachelib_archive.Base.Text.{codes}
use cachelib_archive.Backend.{Client, AutoIncCache, to_string, cache_set, cache_get, invalidate_all}
pub mod Coherence
mod Tests

-- What the backend uses of bsoncxx. `document` has an `_id` and string fields; a field that is
-- missing or no string is `none`, as is a text that is no JSON, at which `from_json` throws.
pub record Bson : Type 1 where
  pub Doc : Type 0
  pub document : ℕ → List (List ℕ × List ℕ) → Doc
  pub field : Doc → List ℕ → Option (List ℕ)
  pub to_json : Doc → List ℕ
  pub from_json : List ℕ → Option Doc

-- What the backend uses of a collection. `none`, and false, are a `mongocxx::exception`.
pub record Collection (bson : Bson) : Type 1 where
  pub State : Type 0
  pub find_one : State → bson.Doc → Option (Option bson.Doc)
  pub insert_one : State → bson.Doc → Bool × State
  pub delete_from : State → ℕ → Bool × State
  pub drop : State → Bool × State

-- How `read_record` ends: it returns, the results with true, or an exception that is none of
-- mongocxx leaves it.
pub data ReadEnd : Type 0 where
  answers : Option (List (List ℕ)) → ReadEnd
  escapes : ReadEnd

abbrev pub field_name : ℕ → List ℕ
field_name i = codes "field" ++ to_string i

-- The key and value pairs of an insertion, from field `i` on.
unfoldable pub named_fields : ℕ → List (List ℕ) → List (List ℕ × List ℕ)
named_fields i [] = []
named_fields i (value ∷ values) = (field_name i, value) ∷ named_fields (i + 1) values

module _ (lib : Client) (bson : Bson) (db : Collection bson) where
  pub record MongoBackend : Type 0 where
    pub cache : AutoIncCache lib
    pub cache_enabled : Bool
    pub hit_count : ℕ
    pub collection : db.State

  -- The fields from number `i` on, `n` of them.
  unfoldable pub read_fields : ℕ → ℕ → bson.Doc → List (List ℕ)
  read_fields zero i view = []
  read_fields (suc n) i view =
      let rest = read_fields n (i + 1) view in
      elim (bson.field view (field_name i)) [ none ↦ rest | some value ↦ value ∷ rest ]

  abbrev pub filter : ℕ → bson.Doc
  filter key = bson.document key []

  unfoldable pub mongo_keep : MongoBackend → List ℕ → bson.Doc → MongoBackend
  mongo_keep b cache_key view =
      if b.cache_enabled
      then record b { cache = (cache_set lib b.cache cache_key (bson.to_json view)).1 }
      else b

  -- Behind the cache.
  unfoldable pub mongo_find : ℕ → MongoBackend → ℕ → ReadEnd × MongoBackend
  mongo_find max_fields b key = elim (db.find_one b.collection (filter key)) [
    | none ↦ (answers none, b)
    | some none ↦ (answers none, b)
    | some (some view) ↦ (
      answers (some (read_fields max_fields 1 view)),
      mongo_keep b (bson.to_json (filter key)) view,
    )
  ]

  -- The answer of the cache. `from_json` throws an exception of bsoncxx.
  unfoldable pub mongo_cached : ℕ → MongoBackend → List ℕ → ReadEnd × MongoBackend
  mongo_cached max_fields b json = elim (bson.from_json json) [
    | none ↦ (escapes, b)
    | some view ↦
        (answers (some (read_fields max_fields 1 view)), record b { hit_count = b.hit_count + 1 })
  ]

  unfoldable pub mongo_read_record : ℕ → MongoBackend → ℕ → ReadEnd × MongoBackend
  mongo_read_record max_fields b key = elim b.cache_enabled [
    | false ↦ mongo_find max_fields b key
    | true ↦
        let r = cache_get lib b.cache (bson.to_json (filter key)) in
        elim (ltb 0 (length r.0)) [
          | true ↦ mongo_cached max_fields (record b { cache = r.1 }) r.0
          | false ↦ mongo_find max_fields (record b { cache = r.1 }) key
        ]
  ]

  unfoldable pub mongo_insert_record : MongoBackend → ℕ → List (List ℕ) → Bool × MongoBackend
  mongo_insert_record b key values =
      let r = db.insert_one b.collection (bson.document key (named_fields 1 values)) in
      let stored = record b { collection = r.1 } in
      if r.0 then (true, record stored { cache = invalidate_all lib b.cache }) else (false, stored)

  unfoldable pub mongo_create_database : MongoBackend → Bool × MongoBackend
  mongo_create_database b = let r = db.drop b.collection in (r.0, record b { collection = r.1 })

  unfoldable pub mongo_clean_up : ℕ → MongoBackend → Bool × MongoBackend
  mongo_clean_up max_records b =
      let r = db.delete_from b.collection max_records in (r.0, record b { collection = r.1 })
