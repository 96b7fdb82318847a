-- ===== src/Shm/Exclusion.antt =====
-- One token passes between the client and the server: where it lies, and that the two never use
-- the block together.
use cachelib_archive.Base.{ℕ, ◌+◌, ◌≡◌, ◌⊎◌, inl, inr, refl}
use native.Mathlib.Omega.{arith}
use cachelib_archive.Cache.{CacheLib}
use cachelib_archive.Shm.{
  Signal, sig_close, sig_set, sig_get, sig_del, Message, Request, ClientPc, ServerPc, idle, writing,
  posting, waiting, copying, releasing, closed, polling, handling, post_set, post_get, post_del,
  post_close, stopped, after_post, set_kv, get_kv, del_kv, close, handle,
}
use cachelib_archive.Shm.Protocol.{
  System, Step, Reach, serve, copy_value, start, later, c_take, c_write, c_post, c_wait, c_copy,
  c_release, s_take, s_handle, s_post_set, s_post_get, s_post_del, s_post_close,
}

-- The places where the client may use the block.
unfoldable pub client_token : ClientPc → ℕ
client_token idle = 0
client_token (writing r) = 1
client_token (posting r) = 1
client_token (waiting k) = 0
client_token (copying k) = 1
client_token (releasing k) = 1
client_token closed = 0

-- The places where the server holds the token. From `post_close` on it takes no request.
unfoldable pub server_token : ServerPc → ℕ
server_token polling = 0
server_token handling = 1
server_token post_set = 1
server_token post_get = 1
server_token post_del = 1
server_token post_close = 0
server_token stopped = 0

abbrev pub IsEnding : ServerPc → Type 0
IsEnding p = (p ≡ post_close) ⊎ (p ≡ stopped)

ending_token : {p : ServerPc} → IsEnding p → server_token p ≡ 0
unfolding server_token
ending_token h = ground arith

module _ (lib : CacheLib) where
  abbrev pub tokens : System lib → ℕ
  tokens s =
      client_token s.client
      + server_token s.server
      + s.semaphore
      + s.semaphore_server
      + s.semaphore_get_back

  abbrev OneToken : System lib → Type 0
  OneToken s = IsEnding s.server ⊎ (tokens s ≡ 1)

  after_post_lem : (r : Request) → client_token (after_post r) ≡ 0
  unfolding client_token after_post
  after_post_lem (set_kv _ _) = refl
  after_post_lem (get_kv _) = refl
  after_post_lem (del_kv _) = refl
  after_post_lem close = refl

  handle_lem :
      (m : Message) (c : lib.State)
      → IsEnding (handle lib m c).0 ⊎ (server_token (handle lib m c).0 ≡ 1)
  unfolding server_token handle
  handle_lem m c = go m.ctrl
    where
      go :
          (x : Signal)
          → IsEnding (handle lib (record m { ctrl = x }) c).0
            ⊎ (server_token (handle lib (record m { ctrl = x }) c).0 ≡ 1)
      go sig_close = inl (inl refl)
      go sig_set = inr refl
      go sig_get = inr refl
      go sig_del = inr refl

  Step-OneToken : {pid : ℕ} {s t : System lib} → Step lib pid s t → OneToken s → OneToken t
  unfolding client_token server_token serve copy_value
  Step-OneToken (c_take n r a b f) h = ground arith
  Step-OneToken (c_write r a) h = ground arith
  Step-OneToken (c_post r a) h = let e = after_post_lem r in ground arith
  Step-OneToken (c_wait n k a b) h = ground arith
  Step-OneToken (c_copy k a) h = ground arith
  Step-OneToken (c_release k a) h = ground arith
  Step-OneToken (s_take n a b) h = ground arith
  Step-OneToken {s = s} (s_handle a) h = let e = handle_lem s.shm s.cache in ground arith
  Step-OneToken (s_post_set a) h = ground arith
  Step-OneToken (s_post_get a) h = ground arith
  Step-OneToken (s_post_del a) h = ground arith
  Step-OneToken (s_post_close a) h = ground arith

  Reach-OneToken :
      {pid : ℕ} {m : Message} {c : lib.State} {s : System lib} → Reach lib pid m c s → OneToken s
  unfolding client_token server_token
  Reach-OneToken start = inr refl
  Reach-OneToken (later p q) = Step-OneToken q (Reach-OneToken p)

  -- In every state that the two reach, whatever the requests, the client is between its semaphores
  -- (it may write or read the block) only while the server is not handling a request or about to
  -- post its end.
  pub client-Exclusive :
      {pid : ℕ} {m : Message} {c : lib.State} {s : System lib}
      → Reach lib pid m c s
      → client_token s.client ≡ 1
      → server_token s.server ≡ 0
  client-Exclusive p h = elim (Reach-OneToken p) [ inl e ↦ ending_token e | inr e ↦ omega arith ]
