-- ===== src/Backend/Mongo/Coherence.antt =====
-- The cache in front of MongoDB: a read gives the fields of the document that the collection gives,
-- and an insertion leaves the cache in agreement with the collection.
use cachelib_archive.Base.{
  ℕ, ◌<◌, ◌≡◌, inl, inr, refl, sym, subst, ◌∙◌, Bool, Option, none, some, List, length, ltb, arith,
  Bool-cases,
}
use cachelib_archive.CString.Laws.{IsText}
use cachelib_archive.Backend.{Client, IsSendable, cache_get, full_key}
use cachelib_archive.Backend.Agreement.{Agrees, cache_set-Agrees, cache_get-Agrees, full_key-get}
use cachelib_archive.Backend.Freshness.{IsFresh, cache_set-IsFresh, cache_get-IsFresh}
use cachelib_archive.Backend.Mongo.{
  Bson, Collection, MongoBackend, ReadEnd, answers, filter, named_fields, read_fields, mongo_keep,
  mongo_find, mongo_cached, mongo_read_record,
}

module _ (lib : Client) (bson : Bson) (db : Collection bson) where
  -- The text of the document that the collection gives for the text of a filter.
  abbrev pub json_of : Option (Option bson.Doc) → Option (List ℕ)
  json_of none = none
  json_of (some none) = none
  json_of (some (some view)) = some (bson.to_json view)

  unfoldable pub stored_json : db.State → List ℕ → Option (List ℕ)
  stored_json s text = elim (bson.from_json text) [
    | none ↦ none
    | some d ↦ json_of (db.find_one s d)
  ]

  -- The cache answers with the documents that the collection gives, and has nothing under counters
  -- to come.
  abbrev pub IsCoherent : MongoBackend lib bson db → Type 0
  IsCoherent b = Agrees lib b.cache (stored_json b.collection) × IsFresh lib b.cache

  -- The filter is read back from its text, which can be sent to the cache, and so is the document that the
  -- collection gives.
  pub record CanSend (b : MongoBackend lib bson db) (key : ℕ) : Type 0 where
    pub filter_back :
        bson.from_json (bson.to_json (filter lib bson db key)) ≡ some (filter lib bson db key)
    pub text : IsText (full_key lib b.cache (bson.to_json (filter lib bson db key)))
    pub room : length (full_key lib b.cache (bson.to_json (filter lib bson db key))) < lib.room
    pub view_back :
        (view : bson.Doc)
        → db.find_one b.collection (filter lib bson db key) ≡ some (some view)
        → bson.from_json (bson.to_json view) ≡ some view
    pub view_send :
        (view : bson.Doc)
        → db.find_one b.collection (filter lib bson db key) ≡ some (some view)
        → IsSendable lib.room
            (full_key lib b.cache (bson.to_json (filter lib bson db key)))
            (bson.to_json view)

  -- What the collection gives for a key: `none` where `read_record` is false.
  abbrev pub fields_of : ℕ → Option (Option bson.Doc) → Option (List (List ℕ))
  fields_of n none = none
  fields_of n (some none) = none
  fields_of n (some (some view)) = some (read_fields lib bson db n 1 view)

  abbrev pub IsRead : ℕ → MongoBackend lib bson db → ℕ → ReadEnd × MongoBackend lib bson db → Type 0
  IsRead n b key (end, b') =
      (end ≡ answers (fields_of n (db.find_one b.collection (filter lib bson db key))))
      × IsCoherent b'
      × (b'.collection ≡ b.collection)

  mongo_keep-IsCoherent :
      (b : MongoBackend lib bson db) (text : List ℕ) (view : bson.Doc)
      → IsCoherent b
      → stored_json b.collection text ≡ some (bson.to_json view)
      → IsSendable lib.room (full_key lib b.cache text) (bson.to_json view)
      → IsCoherent (mongo_keep lib bson db b text view)
        × ((mongo_keep lib bson db b text view).collection ≡ b.collection)
  unfolding mongo_keep
  mongo_keep-IsCoherent b text view (co, fresh) found send = elim (Bool-cases b.cache_enabled) [
    | inl on ↦ rw on (
      (
        cache_set-Agrees lib b.cache _ text (bson.to_json view) co found send,
        cache_set-IsFresh lib b.cache text (bson.to_json view) fresh send,
      ),
      refl,
    )
    | inr off ↦ rw off ((co, fresh), refl)
  ]

  mongo_find-IsRead_at :
      (n : ℕ) (b : MongoBackend lib bson db) (key : ℕ) (o : Option (Option bson.Doc))
      → db.find_one b.collection (filter lib bson db key) ≡ o
      → IsCoherent b
      → CanSend b key
      → IsRead n b key (mongo_find lib bson db n b key)
  unfolding mongo_find stored_json
  mongo_find-IsRead_at n b key none e co send = rw (e, mongo_find) (refl, co, refl)
  mongo_find-IsRead_at n b key (some none) e co send = rw (e, mongo_find) (refl, co, refl)
  mongo_find-IsRead_at n b key (some (some view)) e co send =
      let text = bson.to_json (filter lib bson db key) in
      let found : stored_json b.collection text ≡ some (bson.to_json view) =
        rw (send.filter_back, stored_json, e) refl in
      let (co', same) = mongo_keep-IsCoherent b text view co found (send.view_send view e) in
      rw (e, mongo_find) (refl, co', same)

  mongo_find-IsRead :
      (n : ℕ) (b : MongoBackend lib bson db) (key : ℕ)
      → IsCoherent b
      → CanSend b key
      → IsRead n b key (mongo_find lib bson db n b key)
  mongo_find-IsRead n b key =
      mongo_find-IsRead_at n b key (db.find_one b.collection (filter lib bson db key)) refl

  -- The text of a document that the collection gives is read back as that document.
  cached-IsRead :
      (n : ℕ) (b b' : MongoBackend lib bson db) (key : ℕ) (json : List ℕ)
      (o : Option (Option bson.Doc))
      → db.find_one b.collection (filter lib bson db key) ≡ o
      → json_of o ≡ some json
      → CanSend b key
      → IsCoherent b'
      → b'.collection ≡ b.collection
      → IsRead n b key (mongo_cached lib bson db n b' json)
  unfolding mongo_cached
  cached-IsRead n b b' key json none e h send co same = absurd (ground arith)
  cached-IsRead n b b' key json (some none) e h send co same = absurd (ground arith)
  cached-IsRead n b b' key json (some (some view)) e h send co same =
      let is : bson.to_json view ≡ json = ground arith in
      let back : bson.from_json json ≡ some view =
        subst (λ j. bson.from_json j ≡ some view) is (send.view_back view e) in
      rw (back, mongo_cached, e) (refl, co, same)

  stored_json-filter :
      (b : MongoBackend lib bson db) (key : ℕ)
      → CanSend b key
      → stored_json b.collection (bson.to_json (filter lib bson db key))
        ≡ json_of (db.find_one b.collection (filter lib bson db key))
  unfolding stored_json
  stored_json-filter b key send = rw (send.filter_back, stored_json) refl

  -- Of a coherent backend, on a key whose filter and document are read back from their texts and
  -- can be sent to the cache, `read_record` gives the fields of the document that the collection
  -- gives, and false if there is none or it throws; no exception leaves it, with the cache enabled
  -- or not. It leaves the collection as it was, and the cache coherent with it.
  pub mongo_read_record-IsRead :
      (n : ℕ) (b : MongoBackend lib bson db) (key : ℕ)
      → IsCoherent b
      → CanSend b key
      → IsRead n b key (mongo_read_record lib bson db n b key)
  unfolding mongo_read_record
  mongo_read_record-IsRead n b key co send = elim (Bool-cases b.cache_enabled) [
    | inr off ↦ rw (off, mongo_read_record) (mongo_find-IsRead n b key co send)
    | inl on ↦
        let text = bson.to_json (filter lib bson db key) in
        let r = cache_get lib b.cache text in
        let b' : MongoBackend lib bson db = record b { cache = r.1 } in
        let (answer, co') =
          cache_get-Agrees lib b.cache (stored_json b.collection) text co.0 send.text send.room in
        let fresh' = cache_get-IsFresh lib b.cache text co.1 send.text send.room in
        elim (Bool-cases (ltb 0 (length r.0))) [
          | inl hit ↦
              let found : stored_json b.collection text ≡ some r.0 = elim answer [
                | inl empty ↦ absurd (ground arith)
                | inr has ↦ has
              ] in
              rw (on, mongo_read_record, hit)
                (cached-IsRead n b b' key r.0 _ refl (sym (stored_json-filter b key send) ∙ found)
                  send (co', fresh') refl)
          | inr miss ↦
              let send' : CanSend b' key = record {
                filter_back = send.filter_back;
                text = rw (full_key-get lib b.cache text text) send.text;
                room = rw (full_key-get lib b.cache text text) send.room;
                view_back = send.view_back;
                view_send =
                    λ view e. rw (full_key-get lib b.cache text text) (send.view_send view e);
              } in
              rw (on, mongo_read_record, miss) (mongo_find-IsRead n b' key (co', fresh') send')
        ]
  ]

  -- What the collection makes of an insertion.
  abbrev pub inserted : MongoBackend lib bson db → ℕ → List (List ℕ) → Bool × db.State
  inserted b key values = db.insert_one b.collection (bson.document key (named_fields 1 values))

  -- A document that the collection gives for a filter, it gives behind the insertion as well. The
  -- new document may be stored or not.
  abbrev pub KeepsFound : MongoBackend lib bson db → ℕ → List (List ℕ) → Type 0
  KeepsFound b key values =
      (d view : bson.Doc)
      → db.find_one b.collection d ≡ some (some view)
      → db.find_one (inserted b key values).1 d ≡ some (some view)
