-- ===== src/Shm.antt =====
-- The requests of a client to the cache server through a block of shared memory and three
-- semaphores: clientserver/clientserver/clientAPI.cpp on one side, `sharedMemCtl` of
-- clientserver/clientserver/server.cpp on the other. Each step is one access of a semaphore or of
-- the block. The build has CACHE_HIT 0, so the server keeps no statistics.
pub mod Protocol
pub mod Exclusion
pub mod Served
pub mod Ended
pub mod Tests
use cachelib_archive.Base.{ℕ, ◌<◌, Option, none, some, List, [], ◌∷◌, length, true, false}
use cachelib_archive.CString.{cstr}
use cachelib_archive.Cache.{CacheLib, set_value, get_value, del_value}

abbrev pub shm_key_size : ℕ
shm_key_size = 512

abbrev pub shm_value_size : ℕ
shm_value_size = 1048576

pub data Signal : Type 0 where
  sig_close sig_set sig_get sig_del : Signal

-- `shm_stru`. A text buffer is cleared before it is written, and stands here for the bytes before
-- the zeros that fill it.
pub record Message : Type 0 where
  pub ctrl : Signal
  pub pid : ℕ
  pub key : List ℕ
  pub value : List ℕ

-- The calls of a client, with the key behind the pool's prefix: `setKV`, `getKV`, `delKV`, and the
-- destructor.
pub data Request : Type 0 where
  set_kv : List ℕ → List ℕ → Request
  get_kv : List ℕ → Request
  del_kv : List ℕ → Request
  close : Request

pub data ClientPc : Type 0 where
  idle : ClientPc
  writing : Request → ClientPc
  posting : Request → ClientPc
  waiting : List ℕ → ClientPc
  copying : List ℕ → ClientPc
  releasing : List ℕ → ClientPc
  closed : ClientPc

-- `post_del` falls through to `post_close`, for want of a `break`.
pub data ServerPc : Type 0 where
  polling handling post_set post_get post_del post_close stopped : ServerPc

-- What a client writes into the block: `strcpy` ends a text at its first NUL. `get_kv` and `del_kv`
-- leave the process id as it was, and `close` the texts too.
unfoldable pub message : ℕ → Message → Request → Message
message pid m (set_kv key value) = record {
  ctrl = sig_set;
  pid = pid;
  key = cstr key;
  value = cstr value;
}
message pid m (get_kv key) = record m { ctrl = sig_get; key = cstr key; value = [] }
message pid m (del_kv key) = record m { ctrl = sig_del; key = cstr key; value = [] }
message pid m close = record m { ctrl = sig_close }

-- The texts fit their buffers with the NUL that `strcpy` adds.
abbrev pub Fits : Request → Type 0
Fits (set_kv key value) = (length key < shm_key_size) × (length value < shm_value_size)
Fits (get_kv key) = length key < shm_key_size
Fits (del_kv key) = length key < shm_key_size
Fits close = Unit {0}

-- Where the client goes on after it has posted a request.
unfoldable pub after_post : Request → ClientPc
after_post (set_kv key value) = idle
after_post (get_kv key) = waiting key
after_post (del_kv key) = idle
after_post close = closed

-- The request as the block carries it.
unfoldable pub as_text : Request → Request
as_text (set_kv key value) = set_kv (cstr key) (cstr value)
as_text (get_kv key) = get_kv (cstr key)
as_text (del_kv key) = del_kv (cstr key)
as_text close = close

-- The request that the server reads.
unfoldable pub request_of : Message → Request
request_of m = elim m.ctrl [
  | sig_close ↦ close
  | sig_set ↦ set_kv m.key m.value
  | sig_get ↦ get_kv m.key
  | sig_del ↦ del_kv m.key
]

module _ (lib : CacheLib) where
  -- The `switch` of `sharedMemCtl`, without the posts: where the server goes on, the value in the
  -- block, and the cache. A hit goes over the buffer, which the client has cleared.
  unfoldable pub handle : Message → lib.State → ServerPc × List ℕ × lib.State
  handle m s = elim m.ctrl [
    | sig_close ↦ (post_close, m.value, s)
    | sig_set ↦ (post_set, m.value, (set_value lib s m.pid m.key m.value).1)
    | sig_get ↦
        let r = get_value lib s m.key in (post_get, elim r.0 [ none ↦ m.value | some v ↦ v ], r.1)
    | sig_del ↦ (post_del, m.value, (del_value lib s m.key).1)
  ]
