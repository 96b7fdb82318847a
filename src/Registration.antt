-- ===== src/Registration.antt =====
-- The registration of clients at the cache server: `listen_addpool` and the end of `sharedMemCtl`
-- of clientserver/clientserver/server.cpp, `CacheHitStatistics` of shm_util.h, and
-- `CachelibClient::addpool` of clientAPI.cpp. An `int` that counts stands as a number.
pub mod Names
pub mod Sound
pub mod Leaving
pub mod Preserved
mod Tests
use cachelib_archive.Base.{
  ℕ, zero, suc, ◌+◌, ◌-◌, ◌*◌, ◌%◌, ◌^◌, ◌&&◌, leb, ◌≡◌, Bool, true, false, Option, none, some,
  List, [], ◌∷◌, ◌++◌, length, take, drop, get_elem?, remove_at, replicate, ltb, ◌==◌,
  if◌then◌else◌,
}
use cachelib_archive.CString.{cstr, str_eq, is_space}
use cachelib_archive.CString.Numbers.{stoi}
use cachelib_archive.Backend.{to_string}

-- The value of `poolRecord` at a pool: its connections, and the next number to give.
pub record PoolRecord : Type 0 where
  pub first : ℕ
  pub second : ℕ

-- A running `sharedMemCtl`: the pool of its statistics, and its number in the pool.
pub record Thread : Type 0 where
  pub pool_name : List ℕ
  pub no : ℕ

-- A registration between the test of `poolRecord` and its change: another thread may end there.
pub record Asked : Type 0 where
  pub pool_name : List ℕ
  pub is_new : Bool

-- `poolRecord`, the vectors `totalGet` of `name2CHS`, the threads, and what the listener does.
pub record Registry : Type 0 where
  pub pool_record : List ℕ → Option PoolRecord
  pub total_get : List ℕ → List ℕ
  pub threads : List Thread
  pub asked : Option Asked

abbrev pub no_registry : Registry
no_registry = record {
  pool_record = λ name. none;
  total_get = λ name. [];
  threads = [];
  asked = none;
}

-- A map with one key set.
unfoldable pub put : {A : Type 0} → (List ℕ → A) → List ℕ → A → List ℕ → A
put m key v k = if str_eq key k then v else m k

-- `poolRecord[name]`: a pair of zeros where there is none.
abbrev pub record_of : Option PoolRecord → PoolRecord
record_of none = record { first = 0; second = 0 }
record_of (some r) = r

-- No connection of the pool is left, or there never was one.
unfoldable pub is_new_pool : Option PoolRecord → Bool
is_new_pool none = true
is_new_pool (some r) = r.first == 0

-- `adjustSize`: zeros are pushed until the vector has `n_size + 1` elements.
unfoldable pub adjust_size : List ℕ → ℕ → List ℕ
adjust_size total_get n_size = total_get ++ replicate (n_size + 1 - length total_get) 0

-- The test of the pool's record.
abbrev pub ask : Registry → List ℕ → Registry
ask s name = record s {
  asked = some (record { pool_name = name; is_new = is_new_pool (s.pool_record name) });
}

-- The pool's record when the number has been taken from it.
unfoldable pub taken : Registry → Asked → PoolRecord
taken s a =
    if a.is_new
    then record { first = 1; second = 1 }
    else let r = record_of (s.pool_record a.pool_name) in
      record { first = r.first + 1; second = r.second + 1 }

unfoldable pub new_shm_id : Registry → Asked → ℕ
new_shm_id s a = if a.is_new then 0 else (record_of (s.pool_record a.pool_name)).second

-- The number is taken, under the lock, and the thread started.
unfoldable pub register : Registry → Asked → Registry
register s a = record {
  pool_record = put s.pool_record a.pool_name (some (taken s a));
  total_get =
      put s.total_get a.pool_name
        (adjust_size (if a.is_new then [] else s.total_get a.pool_name) (new_shm_id s a));
  threads = record { pool_name = a.pool_name; no = new_shm_id s a } ∷ s.threads;
  asked = none;
}

-- `poolRecord[name].first--`.
abbrev pub one_less : PoolRecord → PoolRecord
one_less r = record r { first = r.first - 1 }

-- A thread ends, and its pool's record counts one connection less.
unfoldable pub leave : Registry → ℕ → Thread → Registry
leave s i t = record s {
  pool_record =
      put s.pool_record t.pool_name (some (one_less (record_of (s.pool_record t.pool_name))));
  threads = remove_at s.threads i;
}

pub data Step (s : Registry) : Registry → Type 0 where
  asks : (name : List ℕ) → s.asked ≡ none → Step s (ask s name)
  registers : (a : Asked) → s.asked ≡ some a → Step s (register s a)
  leaves : (i : ℕ) (t : Thread) → get_elem? s.threads i ≡ some t → Step s (leave s i t)

pub data Reach : Registry → Type 0 where
  start : Reach no_registry
  later : {s t : Registry} → Reach s → Step s t → Reach t

-- The name of the shared memory and of the first semaphore.
unfoldable pub shm_id : List ℕ → ℕ → List ℕ
shm_id pool_name number = pool_name ++ b'_' ∷ to_string number

-- What the client sends, with the NUL.
unfoldable pub registration : List ℕ → List ℕ
registration pool_name = b'A' ∷ b':' ∷ (pool_name ++ 0 ∷ [])

-- What the server makes of a message's text: the text, the exception of `string` at a position
-- behind the end, or undefined behaviour.
pub data Request : Type 0 where
  request : List ℕ → Request
  out_of_range overrun : Request

-- The buffer of the server, which it clears before.
abbrev pub buf_size : ℕ
buf_size = 1024

-- What one `recv` puts in the buffer, of a message that has arrived whole.
abbrev pub in_buffer : List ℕ → List ℕ
in_buffer sent = take buf_size sent

-- `string(buf, 2, bytesReceived - 2)`, given the bytes that were received: what follows the second
-- byte in the C string of the buffer. Bytes that fill the buffer without a NUL leave none in it, and
-- the string does not end there.
unfoldable pub text_of : List ℕ → Request
text_of received =
    let s = cstr received in
    if length s == buf_size
    then overrun
    else if ltb (length s) 2
    then out_of_range
    else request (take (length received - 2) (drop 2 s))

unfoldable pub request_text : List ℕ → Request
unfolding text_of
request_text sent = text_of (in_buffer sent)

-- The server's answer.
unfoldable pub send_info : ℕ → List ℕ → List ℕ
send_info pid shm_id = to_string pid ++ b' ' ∷ shm_id

-- The two sides of a text's first space. Without one both are the text.
unfoldable pub until_space : List ℕ → List ℕ
until_space [] = []
until_space (c ∷ s) = if c == 32 then [] else c ∷ until_space s

unfoldable pub behind_space : List ℕ → Option (List ℕ)
behind_space [] = none
behind_space (c ∷ s) = if c == 32 then some s else behind_space s

-- The pool and the name that an answer gives.
unfoldable pub answer_of : List ℕ → Option (ℕ × List ℕ)
unfolding stoi until_space behind_space
answer_of recv_info = elim (stoi (until_space recv_info)) [
  | none ↦ none
  | some pid ↦ some (pid, elim (behind_space recv_info) [ none ↦ recv_info | some id ↦ id ])
]

-- What the client reads in an answer: `recv` gives 32 bytes at most, into a buffer of 32 that was
-- cleared, so that an answer of fewer bytes is a C string there.
unfoldable pub read_answer : List ℕ → Option (ℕ × List ℕ)
unfolding answer_of
read_answer sent = answer_of (cstr (take 32 sent))
