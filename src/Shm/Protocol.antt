-- ===== src/Shm/Protocol.antt =====
-- The steps of a client and the server over the block and the semaphores.
use cachelib_archive.Base.{ℕ, ◌+◌, ◌≡◌, suc, List, [], ◌∷◌, length, ltb, if◌then◌else◌}
use cachelib_archive.CString.{cstr}
use cachelib_archive.Cache.{CacheLib}
use cachelib_archive.Shm.{
  Message, Request, ClientPc, ServerPc, idle, writing, posting, waiting, copying, releasing,
  polling, handling, post_set, post_get, post_del, post_close, stopped, message, Fits, after_post,
  as_text, request_of, handle,
}

module _ (lib : CacheLib) where
  -- `sent` and `served` list the requests, the newest first: they only record what happens.
  pub record System : Type 0 where
    pub client : ClientPc
    pub server : ServerPc
    pub semaphore : ℕ
    pub semaphore_server : ℕ
    pub semaphore_get_back : ℕ
    pub shm : Message
    pub cache : lib.State
    pub get_value_buf : List ℕ
    pub get_hit : ℕ
    pub sent : List Request
    pub served : List Request

  -- The semaphores as the server opens them, and a client that has opened them.
  abbrev pub init : Message → lib.State → System
  init m c = record {
    client = idle;
    server = polling;
    semaphore = 0;
    semaphore_server = 1;
    semaphore_get_back = 0;
    shm = m;
    cache = c;
    get_value_buf = [];
    get_hit = 0;
    sent = [];
    served = [];
  }

  -- The client's copy of the answer, and its count of hits.
  unfoldable pub copy_value : System → System
  copy_value s = record s {
    get_value_buf = cstr s.shm.value;
    get_hit = if ltb 0 (length (cstr s.shm.value)) then s.get_hit + 1 else s.get_hit;
  }

  -- The server's access to the block and the cache.
  unfoldable pub serve : System → System
  serve s =
      let r = handle lib s.shm s.cache in
      record s {
        server = r.0;
        shm = record s.shm { value = r.1 };
        cache = r.2;
        served = request_of s.shm ∷ s.served;
      }

  pub data Step (pid : ℕ) (s : System) : System → Type 0 where
    c_take :
        (n : ℕ) (r : Request)
        → s.client ≡ idle
        → s.semaphore_server ≡ suc n
        → Fits r
        → Step pid s (record s { client = writing r; semaphore_server = n })
    c_write :
        (r : Request)
        → s.client ≡ writing r
        → Step pid s (record s { client = posting r; shm = message pid s.shm r })
    c_post :
        (r : Request)
        → s.client ≡ posting r
        → Step pid s (record s {
          client = after_post r;
          semaphore = s.semaphore + 1;
          sent = as_text r ∷ s.sent;
        })
    c_wait :
        (n : ℕ) (key : List ℕ)
        → s.client ≡ waiting key
        → s.semaphore_get_back ≡ suc n
        → Step pid s (record s { client = copying key; semaphore_get_back = n })
    c_copy :
        (key : List ℕ)
        → s.client ≡ copying key
        → Step pid s (record (copy_value s) { client = releasing key })
    c_release :
        (key : List ℕ)
        → s.client ≡ releasing key
        → Step pid s (record s { client = idle; semaphore_server = s.semaphore_server + 1 })
    s_take :
        (n : ℕ)
        → s.server ≡ polling
        → s.semaphore ≡ suc n
        → Step pid s (record s { server = handling; semaphore = n })
    s_handle : s.server ≡ handling → Step pid s (serve s)
    s_post_set :
        s.server ≡ post_set
        → Step pid s (record s { server = polling; semaphore_server = s.semaphore_server + 1 })
    s_post_get :
        s.server ≡ post_get
        → Step pid s (record s { server = polling; semaphore_get_back = s.semaphore_get_back + 1 })
    s_post_del :
        s.server ≡ post_del
        → Step pid s (record s { server = post_close; semaphore_server = s.semaphore_server + 1 })
    s_post_close :
        s.server ≡ post_close
        → Step pid s (record s { server = stopped; semaphore_server = s.semaphore_server + 1 })

  pub data Reach (pid : ℕ) (m : Message) (c : lib.State) : System → Type 0 where
    start : Reach pid m c (init m c)
    later : {s t : System} → Reach pid m c s → Step pid s t → Reach pid m c t
