-- ===== src/Backend/Tests.antt =====
-- A cache that keeps one entry, a database that keeps all, and a backend with the cache enabled.
use cachelib_archive.Base.{
  zero, suc, ◌*◌, false, ℕ, ◌≡◌, ◌⊎◌, inl, inr, refl, sym, ◌∙◌, subst, true, Option, none, some,
  List, [], ◌∷◌, arith, Bool-cases, if◌then◌else◌,
}
use cachelib_archive.CString.{str_eq, cstr}
use cachelib_archive.CString.Laws.{str_eq_iff}
use cachelib_archive.Backend.{
  Client, to_string, int_string, digits_of, full_key, pack_values, unpack_values,
}
use cachelib_archive.Shm.Tests.{log_cache, look_up, fetched, stored, a_key}
use cachelib_archive.Shm.Protocol.{copy_value}
use cachelib_archive.Backend.Connection.{CacheLaws, WasSet, get_kv-WasSet}
use cachelib_archive.Backend.Packing.{unpack-pack}
use cachelib_archive.Backend.Leveldb.{Database, LeveldbBackend, read_record, insert_record}
use cachelib_archive.Benchmark.{Benchmark}
use cachelib_archive.Benchmark.Loading.{prepare, fields_at}
use cachelib_archive.Backend.Leveldb.Loaded.{leveldb, IsReady, prepare-read}
use cachelib_archive.Backend.Leveldb.Coherence.{
  IsCoherent, IsRead, IsStored, read_record-IsRead, insert_record-IsStored,
}

unfoldable pub answer_of : Option (List ℕ × List ℕ) → List ℕ → List ℕ
answer_of none k = []
answer_of (some (k', v)) k = if str_eq k' k then v else []

pub answer_of_lem :
    (s : Option (List ℕ × List ℕ)) (k : List ℕ)
    → (answer_of s k ≡ []) ⊎ (s ≡ some (k, answer_of s k))
unfolding answer_of
answer_of_lem none k = inl refl
answer_of_lem (some (k', v)) k = elim (Bool-cases (str_eq k' k)) [
  | inl e ↦ let same : k' ≡ k = (str_eq_iff k' k).0 e in inr (ground arith)
  | inr e ↦ inl (ground arith)
]

pub one_slot_set :
    (k v k' v' : List ℕ)
    → ◌≡◌ {A = Option (List ℕ × List ℕ)} (some (k, v)) (some (k', v'))
    → (k' ≡ k) × (v' ≡ v)
one_slot_set k v k' v' h = ((ground arith), (ground arith))

abbrev pub one_slot : Client
one_slot = record {
  State = Option (List ℕ × List ℕ);
  room = 500;
  set_kv = λ s k v. some (k, v);
  get_kv = λ s k. (answer_of s k, s);
  del_kv = λ s k. none;
  Has = λ s k v. s ≡ some (k, v);
  has_get = λ s k x l. answer_of_lem s k;
  get_has = λ s k k' v x l h. h;
  set_has = λ s k v k' v' f h. inr (one_slot_set k v k' v' h);
}

abbrev all_kept : Database
all_kept = record {
  State = List ℕ → Option (List ℕ);
  get = λ s k. s k;
  put = λ s k v. (true, λ x. if str_eq x k then some v else s x);
  delete = λ s k. λ x. if str_eq x k then none else s x;
  get_put = λ s k v h. rw ((str_eq_iff k k).1 refl);
  get_put_ne = λ s k v k' ne. elim (Bool-cases (str_eq k' k)) [
    | inl e ↦ absurd (ne ((str_eq_iff k' k).0 e))
    | inr e ↦ rw e
  ];
}

abbrev backend : LeveldbBackend one_slot all_kept
backend = record {
  cache = record { counter = 0; subpool_name = b't' ∷ []; client = some none };
  thread_id = 0;
  subpool_name = b't' ∷ [];
  cache_enabled = true;
  hit_count = 0;
  disk = λ _. none;
}

backend-IsCoherent : IsCoherent one_slot all_kept backend
backend-IsCoherent s t v e h = ground arith

abbrev fields : List (List ℕ)
fields = (b'a' ∷ b'b' ∷ []) ∷ (b'c' ∷ b'd' ∷ []) ∷ []

unpack-pack_example : unpack_values (pack_values fields) 2 ≡ fields
unpack-pack_example = unpack-pack 2 fields (omega arith) (refl, (refl, tt))

read_record-IsRead_example :
    IsRead one_slot all_kept 2 backend (to_string 7) (read_record one_slot all_kept 2 backend 7)
unfolding full_key int_string to_string digits_of
read_record-IsRead_example =
    read_record-IsRead one_slot all_kept 2 backend 7 backend-IsCoherent
      (ground arith, (omega arith), (λ v h. ground arith))

insert_record-IsStored_example :
    ((insert_record one_slot all_kept backend 7 fields).0 ≡ true)
    × IsStored one_slot all_kept
        (to_string 7)
        (pack_values fields)
        (insert_record one_slot all_kept backend 7 fields).1
unfolding full_key int_string to_string digits_of pack_values
insert_record-IsStored_example =
    insert_record-IsStored one_slot all_kept backend 7 fields backend-IsCoherent refl refl
      (ground arith)

look_up_insert :
    (s : List (List ℕ × List ℕ)) (k w k' v : List ℕ)
    → look_up ((k, w) ∷ s) k' ≡ some v
    → ((k' ≡ k) × (v ≡ w)) ⊎ (look_up s k' ≡ some v)
unfolding look_up
look_up_insert s k w k' v h = elim (Bool-cases (str_eq k k')) [
  | inl e ↦
      let same : k ≡ k' = (str_eq_iff k k').0 e in
      let first : look_up ((k, w) ∷ s) k' ≡ some w = ground arith in
      let is : v ≡ w = ground arith in inl (sym same, is)
  | inr e ↦ let later : look_up ((k, w) ∷ s) k' ≡ look_up s k' = ground arith in inr (sym later ∙ h)
]

log_cache-CacheLaws : CacheLaws log_cache
log_cache-CacheLaws = record {
  find_find = λ s k k' v h. h;
  find_allocate = λ s s' pid k n k' v e h.
      let same : s ≡ s' = ground arith in
      subst (λ (x : List (List ℕ × List ℕ)). look_up x k' ≡ some v) (sym same) h;
  find_insert = look_up_insert;
  find_remove = λ s k k' v h. h;
}

get_kv-WasSet_example :
    (fetched.0.get_value_buf ≡ [])
    ⊎ ((value : List ℕ) × (fetched.0.get_value_buf ≡ cstr value)
        × WasSet (cstr a_key) value fetched.0.served)
unfolding fetched stored copy_value look_up
get_kv-WasSet_example = get_kv-WasSet log_cache log_cache-CacheLaws 7 [] a_key fetched.1 refl refl

abbrev bench : Benchmark (leveldb one_slot all_kept 2 3)
bench = record {
  backend = backend;
  next_insert_key = 0;
  current_query = 0;
  max_records = 4;
  max_query = 1;
  whether_sequence = false;
  unified_sequential_counter = 0;
  records_executed = 0;
}

backend-IsReady : IsReady one_slot all_kept 2 3 4 0 backend
unfolding full_key int_string to_string digits_of
backend-IsReady zero h = ((omega arith), (omega arith), refl)
backend-IsReady (suc zero) h = ((omega arith), (omega arith), refl)
backend-IsReady (suc (suc zero)) h = ((omega arith), (omega arith), refl)
backend-IsReady (suc (suc (suc zero))) h = ((omega arith), (omega arith), refl)
backend-IsReady (suc (suc (suc (suc j)))) h = absurd (omega arith)

prepare-read_example :
    ((prepare (leveldb one_slot all_kept 2 3) 2 3 bench (λ i. i * 17)).next_insert_key ≡ 4)
    × ((read_record one_slot all_kept 3
          (prepare (leveldb one_slot all_kept 2 3) 2 3 bench (λ i. i * 17)).backend
          2).0
        ≡ some (fields_at 2 3 2 (λ i. i * 17)))
prepare-read_example =
    prepare-read one_slot all_kept 2 3 bench (λ i. i * 17) 2 (λ s k v. refl) backend-IsCoherent
      backend-IsReady (omega arith) (omega arith) (omega arith)
