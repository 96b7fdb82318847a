-- ===== src/Backend/Leveldb/Coherence.antt =====
-- The cache in front of LevelDB never answers with another value than the database has.
use cachelib_archive.Base.{
  ℕ, ◌+◌, ◌<◌, ◌≡◌, ◌≢◌, inl, inr, refl, sym, ◌∙◌, subst, true, Option, none, some, List, length,
  ltb, arith, Bool-cases, Option-cases,
}
use cachelib_archive.CString.Laws.{IsText}
use cachelib_archive.Backend.{
  Client, AutoIncCache, IsSendable, to_string, cache_set, cache_get, full_key, pack_values,
  unpack_values,
}
use cachelib_archive.Backend.Agreement.{Agrees, cache_set-Agrees, cache_get-Agrees, full_key-get}
use cachelib_archive.Backend.Leveldb.{
  Database, LeveldbBackend, store_read, read_disk, read_record, insert_record,
}

module _ (lib : Client) (db : Database) where
  abbrev pub IsCoherent : LeveldbBackend lib db → Type 0
  IsCoherent b = Agrees lib b.cache (db.get b.disk)

  -- The key can be sent to the cache, and so can the value that the database has under it.
  abbrev pub CanSend : LeveldbBackend lib db → List ℕ → Type 0
  CanSend b t =
      IsText (full_key lib b.cache t)
      × (length (full_key lib b.cache t) < lib.room)
      × ((v : List ℕ) → db.get b.disk t ≡ some v → IsSendable lib.room (full_key lib b.cache t) v)

  abbrev pub fields_of : ℕ → Option (List ℕ) → Option (List (List ℕ))
  fields_of size none = none
  fields_of size (some v) = some (unpack_values v size)

  -- What a read promises.
  abbrev pub IsRead :
      ℕ → LeveldbBackend lib db → List ℕ → Option (List (List ℕ)) × LeveldbBackend lib db → Type 0
  IsRead size b t (results, b') =
      (results ≡ fields_of size (db.get b.disk t)) × IsCoherent b' × (b'.disk ≡ b.disk)

  read_disk-IsRead :
      (size : ℕ) (b : LeveldbBackend lib db) (t : List ℕ)
      → IsCoherent b
      → ((v : List ℕ) → db.get b.disk t ≡ some v → IsSendable lib.room (full_key lib b.cache t) v)
      → IsRead size b t (read_disk lib db size b t)
  unfolding read_disk store_read
  read_disk-IsRead size b t co f = elim (Option-cases (db.get b.disk t)) [
    | inl no_value ↦
        let e : read_disk lib db size b t ≡ (none, b) = ground arith in
        subst (IsRead size b t) (sym e) ((rw no_value), co, refl)
    | inr (v, found) ↦ elim (Bool-cases b.cache_enabled) [
      | inl on ↦
          let e : read_disk lib db size b t
              ≡ (some (unpack_values v size), record b { cache = (cache_set lib b.cache t v).1 }) =
            ground arith in
          subst (IsRead size b t) (sym e) (
            (rw found),
            cache_set-Agrees lib b.cache (db.get b.disk) t v co found (f v found),
            refl,
          )
      | inr off ↦
          let e : read_disk lib db size b t ≡ (some (unpack_values v size), b) = ground arith in
          subst (IsRead size b t) (sym e) ((rw found), co, refl)
    ]
  ]

  -- A read gives the fields that the database has under the key, or false if it has none, with the
  -- cache enabled or not; it leaves the database as it was, and the cache coherent with it.
  pub read_record-IsRead :
      (size : ℕ) (b : LeveldbBackend lib db) (key : ℕ)
      → IsCoherent b
      → CanSend b (to_string key)
      → IsRead size b (to_string key) (read_record lib db size b key)
  unfolding read_record
  read_record-IsRead size b key co (x, l, f) =
      let t = to_string key in
      elim (Bool-cases b.cache_enabled) [
        | inr off ↦
            let e : read_record lib db size b key ≡ read_disk lib db size b t = ground arith in
            subst (IsRead size b t) (sym e) (read_disk-IsRead size b t co f)
        | inl on ↦
            let r = cache_get lib b.cache t in
            let (answer, co') = cache_get-Agrees lib b.cache (db.get b.disk) t co x l in
            elim (Bool-cases (ltb 0 (length r.0))) [
              | inl hit ↦
                  let e : read_record lib db size b key ≡ (
                    some (unpack_values r.0 size),
                    record b { cache = r.1; hit_count = b.hit_count + 1 },
                  ) =
                    ground arith in
                  let found : db.get b.disk t ≡ some r.0 = ground arith in
                  subst (IsRead size b t) (sym e) ((rw found), co', refl)
              | inr miss ↦
                  let e : read_record lib db size b key
                      ≡ read_disk lib db size (record b { cache = r.1 }) t =
                    ground arith in
                  subst (IsRead size b t) (sym e) (
                    read_disk-IsRead size (record b { cache = r.1 }) t co'
                      (λ v h. rw (full_key-get lib b.cache t t) (f v h)))
            ]
      ]

  abbrev pub IsStored : List ℕ → List ℕ → LeveldbBackend lib db → Type 0
  IsStored t v b = (db.get b.disk t ≡ some v) × IsCoherent b

  store_read-IsStored :
      (b : LeveldbBackend lib db) (t v : List ℕ)
      → IsCoherent b
      → db.get b.disk t ≡ some v
      → IsSendable lib.room (full_key lib b.cache t) v
      → IsStored t v (store_read lib db b t v)
  unfolding store_read
  store_read-IsStored b t v co stored send = elim (Bool-cases b.cache_enabled) [
    | inl on ↦
        let e : store_read lib db b t v ≡ record b { cache = (cache_set lib b.cache t v).1 } =
          ground arith in
        subst (IsStored t v) (sym e)
          (stored, cache_set-Agrees lib b.cache (db.get b.disk) t v co stored send)
    | inr off ↦
        let e : store_read lib db b t v ≡ b = ground arith in
        subst (IsStored t v) (sym e) (stored, co)
  ]

  put-Agrees :
      (c : AutoIncCache lib) (s : db.State) (t v : List ℕ)
      → Agrees lib c (db.get s)
      → db.get s t ≡ none
      → Agrees lib c (db.get (db.put s t v).1)
  put-Agrees c s t v co fresh s' t' v' e h =
      let old : db.get s t' ≡ some v' = co s' t' v' e h in
      let other : t' ≢ t = λ same.
        let clash : db.get s t ≡ some v' = subst (λ (x : List ℕ). db.get s x ≡ some v') same old in
        ground arith in
      db.get_put_ne s t v t' other ∙ old

  -- An insertion under a new key that the database accepts returns true, stores the packed fields
  -- under the key, and leaves the cache coherent with the database.
  pub insert_record-IsStored :
      (b : LeveldbBackend lib db) (key : ℕ) (values : List (List ℕ))
      → IsCoherent b
      → db.get b.disk (to_string key) ≡ none
      → (db.put b.disk (to_string key) (pack_values values)).0 ≡ true
      → IsSendable lib.room (full_key lib b.cache (to_string key)) (pack_values values)
      → ((insert_record lib db b key values).0 ≡ true)
        × IsStored (to_string key) (pack_values values) (insert_record lib db b key values).1
  unfolding insert_record
  insert_record-IsStored b key values co fresh done send =
      let t = to_string key in
      let v = pack_values values in
      (
        done,
        store_read-IsStored (record b { disk = (db.put b.disk t v).1 }) t v
            (put-Agrees b.cache b.disk t v co fresh) (db.get_put b.disk t v done) send,
      )
