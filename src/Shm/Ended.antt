-- ===== src/Shm/Ended.antt =====
-- What becomes of a connection once the server has served a `delKV`: the `case` has no `break`, and
-- falls through to that of `SIG_CLOSE`.
use cachelib_archive.Base.{ℕ, ◌≡◌, ◌⊎◌, Bool, true, false, List, [], ◌∷◌}
use native.Mathlib.Omega.{arith}
use cachelib_archive.Cache.{CacheLib}
use cachelib_archive.Shm.{
  Message, Request, ServerPc, post_del, set_kv, get_kv, del_kv, close, handle, request_of,
}
use cachelib_archive.Shm.Protocol.{
  System, Step, Reach, serve, copy_value, start, later, c_take, c_write, c_post, c_wait, c_copy,
  c_release, s_take, s_handle, s_post_set, s_post_get, s_post_del, s_post_close,
}
use cachelib_archive.Shm.Exclusion.{IsEnding}
use cachelib_archive.Shm.Served.{takes_answer, ending-takes_answer}

-- A `delKV` is among the requests.
unfoldable pub has_del : List Request → Bool
has_del [] = false
has_del (del_kv _ ∷ rs) = true
has_del (set_kv _ _ ∷ rs) = has_del rs
has_del (get_kv _ ∷ rs) = has_del rs
has_del (close ∷ rs) = has_del rs

abbrev pub IsStopping : ServerPc → Type 0
IsStopping p = (p ≡ post_del) ⊎ IsEnding p

module _ (lib : CacheLib) (pid : ℕ) where
  Step-IsStopping :
      {s t : System lib}
      → Step lib pid s t
      → (has_del s.served ≡ true → IsStopping s.server)
      → has_del t.served ≡ true
      → IsStopping t.server
  unfolding has_del copy_value serve handle request_of
  Step-IsStopping (c_take n r a b f) h d = h d
  Step-IsStopping (c_write r a) h d = h d
  Step-IsStopping (c_post r a) h d = h d
  Step-IsStopping (c_wait n k a b) h d = h d
  Step-IsStopping (c_copy k a) h d = h d
  Step-IsStopping (c_release k a) h d = h d
  Step-IsStopping (s_take n a b) h d = let e = h d in ground arith
  Step-IsStopping {s} (s_handle a) h d = ground arith
  Step-IsStopping (s_post_set a) h d = let e = h d in ground arith
  Step-IsStopping (s_post_get a) h d = let e = h d in ground arith
  Step-IsStopping (s_post_del a) h d = let e = h d in ground arith
  Step-IsStopping (s_post_close a) h d = let e = h d in ground arith

  Reach-IsStopping :
      {m : Message} {c₀ : lib.State} {s : System lib}
      → Reach lib pid m c₀ s
      → has_del s.served ≡ true
      → IsStopping s.server
  unfolding has_del
  Reach-IsStopping start d = ground arith
  Reach-IsStopping (later p q) d = Step-IsStopping q (Reach-IsStopping p) d

  -- Once a `delKV` is among the served requests, the server posts its end or has stopped, and takes
  -- no further request; the client has no answer in its hands, so no `getKV` after it returns.
  pub del_kv-IsStopping :
      {m : Message} {c₀ : lib.State} {s : System lib}
      → Reach lib pid m c₀ s
      → has_del s.served ≡ true
      → IsStopping s.server × (takes_answer s.client ≡ 0)
  del_kv-IsStopping p d =
      let stopping = Reach-IsStopping p d in (stopping, ending-takes_answer lib pid _ p stopping)
