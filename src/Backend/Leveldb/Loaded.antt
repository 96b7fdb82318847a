-- ===== src/Backend/Leveldb/Loaded.antt =====
-- The benchmark over LevelDB: what its preparation has stored, a read gives.
use cachelib_archive.Base.{
  ℕ, zero, suc, ◌+◌, ◌*◌, ◌<◌, ◌≡◌, ◌≢◌, refl, sym, ap, ◌∙◌, subst, true, none, some, List, length,
  arith,
}
use cachelib_archive.CString.Laws.{IsText}
use cachelib_archive.Backend.{Client, IsSendable, to_string, full_key, pack_values}
use cachelib_archive.Backend.Packing.{unpack-pack}
use cachelib_archive.Backend.Numbers.{to_string-inj}
use cachelib_archive.Backend.Leveldb.{
  Database, LeveldbBackend, create_database, read_record, insert_record,
}
use cachelib_archive.Backend.Leveldb.Coherence.{
  IsCoherent, fields_of, read_record-IsRead, insert_record-IsStored,
}
use cachelib_archive.Benchmark.{Backend, Benchmark}
use cachelib_archive.Benchmark.Loading.{
  random_fields, behind_fields, rng_at, fields_at, load_loop, load_database, prepare,
}
use cachelib_archive.Benchmark.Loading.Packed.{random_fields-AllSized, packed_fields}
use cachelib_archive.Backend.Leveldb.Frame.{store_read-disk, full_key-store_read}

module _ (lib : Client) (db : Database) (fields size : ℕ) where
  -- The backend as the benchmark drives it.
  abbrev pub leveldb : Backend
  leveldb = record {
    State = LeveldbBackend lib db;
    create_database = create_database lib db;
    read_record = read_record lib db size;
    insert_record = insert_record lib db;
  }

  -- The keys from `i` on, `n` of them, can be sent to the cache, and are new.
  abbrev pub IsReady : ℕ → ℕ → LeveldbBackend lib db → Type 0
  IsReady n i b =
      (j : ℕ)
      → j < n
      → IsText (full_key lib b.cache (to_string (i + j)))
        × (length (full_key lib b.cache (to_string (i + j))) < lib.room)
        × (db.get b.disk (to_string (i + j)) ≡ none)

  -- What the loop leaves, of `n` records from `i` on.
  pub record IsLoaded (n i : ℕ) (b : LeveldbBackend lib db) (rng : ℕ → ℕ)
      (t : LeveldbBackend lib db) : Type 0 where
    pub coherent : IsCoherent lib db t
    pub same_keys : (k : List ℕ) → full_key lib t.cache k ≡ full_key lib b.cache k
    pub stored :
        (j : ℕ)
        → j < n
        → db.get t.disk (to_string (i + j)) ≡ some (pack_values (fields_at fields size j rng))
    pub spared :
        (k : List ℕ) → ((j : ℕ) → j < n → k ≢ to_string (i + j)) → db.get t.disk k ≡ db.get b.disk k

  -- The database takes every write.
  abbrev pub Accepts : Type 0
  Accepts = (s : db.State) (k v : List ℕ) → (db.put s k v).0 ≡ true

  -- One insertion of the loop.
  insert_record-IsLoaded :
      (b : LeveldbBackend lib db) (i : ℕ) (rng : ℕ → ℕ)
      → Accepts
      → IsCoherent lib db b
      → IsReady 1 i b
      → fields * size < 1048576
      → ((insert_record lib db b i (random_fields fields size rng)).0 ≡ true)
        × IsLoaded 1 i b rng (insert_record lib db b i (random_fields fields size rng)).1
  unfolding insert_record rng_at
  insert_record-IsLoaded b i rng accepts co ready small =
      let first : i + 0 ≡ i = omega arith in
      let values = random_fields fields size rng in
      let (text, room, new) =
        subst
          (λ k.
            IsText (full_key lib b.cache (to_string k))
            × (length (full_key lib b.cache (to_string k)) < lib.room)
            × (db.get b.disk (to_string k) ≡ none))
          first (ready 0 (omega arith)) in
      let (value_text, len) = packed_fields fields size rng in
      let (done, (stored, co')) =
        insert_record-IsStored lib db b i values co new
          (accepts b.disk (to_string i) (pack_values values))
          (text, value_text, room, omega (arith, len)) in
      let put_b : LeveldbBackend lib db = record b {
        disk = (db.put b.disk (to_string i) (pack_values values)).1;
      } in
      let disk = store_read-disk lib db put_b (to_string i) (pack_values values) in
      (
        done,
        record {
          coherent = co';
          same_keys = full_key-store_read lib db put_b (to_string i) (pack_values values);
          stored = λ j l.
              let only : 0 ≡ j = omega arith in
              subst
                (λ k.
                  db.get (insert_record lib db b i values).1.disk (to_string (i + k))
                  ≡ some (pack_values (fields_at fields size k rng)))
                only
                (ap (λ k. db.get (insert_record lib db b i values).1.disk (to_string k)) first
                  ∙ stored);
          spared = λ k other.
              ap (λ s. db.get s k) disk
              ∙ db.get_put_ne b.disk (to_string i) (pack_values values) k
                  (λ e. other 0 (omega arith) (e ∙ ap to_string (sym first)));
        },
      )

  -- A record behind the first is ready still when the first has been inserted.
  IsReady-step :
      (n i : ℕ) (b t : LeveldbBackend lib db) (rng : ℕ → ℕ)
      → IsReady (suc n) i b
      → IsLoaded 1 i b rng t
      → IsReady n (i + 1) t
  IsReady-step n i b t rng ready one j l =
      let next : i + suc j ≡ i + 1 + j = omega arith in
      let (text, room, new) = ready (suc j) (omega arith) in
      let is_new : db.get t.disk (to_string (i + suc j)) ≡ none =
        one.spared (to_string (i + suc j))
          (λ k l' e. let clash = to_string-inj (i + suc j) (i + k) e in absurd (omega arith))
        ∙ new in
      subst
        (λ k.
          IsText (full_key lib t.cache (to_string k))
          × (length (full_key lib t.cache (to_string k)) < lib.room)
          × (db.get t.disk (to_string k) ≡ none))
        next
        (
          subst IsText (sym (one.same_keys (to_string (i + suc j)))) text,
          omega (arith, ap length (one.same_keys (to_string (i + suc j)))),
          is_new,
        )

  IsLoaded-join :
      (n i : ℕ) (b t u : LeveldbBackend lib db) (rng : ℕ → ℕ)
      → IsLoaded 1 i b rng t
      → IsLoaded n (i + 1) t (behind_fields fields size rng) u
      → IsLoaded (suc n) i b rng u
  unfolding rng_at
  IsLoaded-join n i b t u rng one rest = record {
    coherent = rest.coherent;
    same_keys = λ k. rest.same_keys k ∙ one.same_keys k;
    stored = at;
    spared = λ k other.
        rest.spared k (λ j l e.
          other (suc j) (omega arith)
            (e ∙ ap to_string (let x : i + 1 + j ≡ i + suc j = omega arith in x)))
        ∙ one.spared k (λ j l. other j (omega arith));
  }
    where
      at :
          (j : ℕ)
          → j < suc n
          → db.get u.disk (to_string (i + j)) ≡ some (pack_values (fields_at fields size j rng))
      at zero l =
          rest.spared (to_string (i + 0))
            (λ j l' e. let clash = to_string-inj (i + 0) (i + 1 + j) e in absurd (omega arith))
          ∙ one.stored 0 (omega arith)
      at (suc j) l =
          ap (λ k. db.get u.disk (to_string k)) (let x : i + suc j ≡ i + 1 + j = omega arith in x)
          ∙ rest.stored j (omega arith)

  load_loop-IsLoaded :
      (n i : ℕ) (b : LeveldbBackend lib db) (rng : ℕ → ℕ)
      → Accepts
      → IsCoherent lib db b
      → IsReady n i b
      → fields * size < 1048576
      → ((load_loop leveldb fields size n i b rng).0 ≡ true)
        × IsLoaded n i b rng (load_loop leveldb fields size n i b rng).1
  unfolding load_loop
  load_loop-IsLoaded zero i b rng accepts co ready small = (
    refl,
    record {
      coherent = co;
      same_keys = λ k. refl;
      stored = λ j l. absurd (omega arith);
      spared = λ k other. refl;
    },
  )
  load_loop-IsLoaded (suc n) i b rng accepts co ready small =
      let values = random_fields fields size rng in
      let t = (insert_record lib db b i values).1 in
      let (done, one) =
        insert_record-IsLoaded b i rng accepts co (λ j l. ready j (omega arith)) small in
      let (ok, rest) =
        load_loop-IsLoaded n (i + 1) t (behind_fields fields size rng) accepts one.coherent
          (IsReady-step n i b t rng ready one) small in
      rw (done, load_loop) (ok, IsLoaded-join n i b t _ rng one rest)

  -- What a read gives of a loaded record.
  read_record-IsLoaded :
      (n j : ℕ) (b t : LeveldbBackend lib db) (rng : ℕ → ℕ)
      → IsReady n 0 b
      → IsLoaded n 0 b rng t
      → fields * size < 1048576
      → 0 < size
      → j < n
      → (read_record lib db size t j).0 ≡ some (fields_at fields size j rng)
  read_record-IsLoaded n j b t rng ready h small pos l =
      let at : 0 + j ≡ j = omega arith in
      let values = fields_at fields size j rng in
      let stored : db.get t.disk (to_string j) ≡ some (pack_values values) =
        subst (λ k. db.get t.disk (to_string k) ≡ some (pack_values values)) at (h.stored j l) in
      let (text, room, new) = ready j l in
      let text' : IsText (full_key lib t.cache (to_string j)) =
        subst IsText (sym (h.same_keys (to_string j)))
          (subst (λ k. IsText (full_key lib b.cache (to_string k))) at text) in
      let room' : length (full_key lib t.cache (to_string j)) < lib.room =
        subst (λ k. length k < lib.room) (sym (h.same_keys (to_string j)))
          (subst (λ k. length (full_key lib b.cache (to_string k)) < lib.room) at room) in
      let (value_text, len) = packed_fields fields size (rng_at fields size j rng) in
      let sends = λ (v : List ℕ) (e : db.get t.disk (to_string j) ≡ some v).
        subst (IsSendable lib.room (full_key lib t.cache (to_string j)))
          (let same : some (pack_values values) ≡ some v = sym stored ∙ e in
            let is : pack_values values ≡ v = cc in is)
          (text', value_text, room', omega (arith, len)) in
      (read_record-IsRead lib db size t j h.coherent (text', room', sends)).0
      ∙ ap (fields_of lib db size) stored
      ∙ ap some (
          unpack-pack size values pos
            (random_fields-AllSized fields size (rng_at fields size j rng)))

  -- Over a LevelDB that takes every write and has none of the records, with keys that can be sent to
  -- a cache that agrees with it, fields of one byte at least and records of less than 1 MB, the
  -- preparation loads every record: the next key is the number of records, and a read of a record
  -- below it gives the random fields that were drawn for it, in the order of the records.
  pub prepare-read :
      (bench : Benchmark leveldb) (rng : ℕ → ℕ) (j : ℕ)
      → Accepts
      → IsCoherent lib db bench.backend
      → IsReady bench.max_records 0 bench.backend
      → fields * size < 1048576
      → 0 < size
      → j < bench.max_records
      → ((prepare leveldb fields size bench rng).next_insert_key ≡ bench.max_records)
        × ((read_record lib db size (prepare leveldb fields size bench rng).backend j).0
            ≡ some (fields_at fields size j rng))
  unfolding prepare load_database create_database
  prepare-read bench rng j accepts co ready small pos l =
      let (done, loaded) =
        load_loop-IsLoaded bench.max_records 0 bench.backend rng accepts co ready small in
      rw (done, prepare)
        (
          refl,
          read_record-IsLoaded bench.max_records j bench.backend _ rng ready loaded small pos l,
        )
