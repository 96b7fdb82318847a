-- ===== src/Shm/Served.antt =====
-- What the server has served: the cache is what the requests make of it in the order in which they
-- were sent, and `getKV` returns the answer of the cache as the earlier requests left it.
use cachelib_archive.Base.{ℕ, ◌≡◌, ◌⊎◌, inl, inr, none, some, List, [], ◌∷◌}
use native.Mathlib.Omega.{arith}
use cachelib_archive.CString.{cstr}
use cachelib_archive.Cache.{CacheLib, set_value, get_value, del_value}
use cachelib_archive.Shm.{
  Message, Request, ClientPc, ServerPc, idle, writing, posting, waiting, copying, releasing,
  polling, handling, post_set, post_get, post_del, after_post, set_kv, get_kv, del_kv, close,
  handle, message, as_text, request_of,
}
use cachelib_archive.Shm.Protocol.{
  System, Step, Reach, serve, copy_value, start, later, c_take, c_write, c_post, c_wait, c_copy,
  c_release, s_take, s_handle, s_post_set, s_post_get, s_post_del, s_post_close,
}
use cachelib_archive.Shm.Exclusion.{IsEnding}

-- Where a run stands; the lists are the requests before the one that is answered.
data Phase : Type 0 where
  free at_set at_del ending : Phase
  at_writing : Request → Phase
  at_posting : Request → Message → Phase
  posted : Request → Message → Phase
  at_handling : Request → Message → Phase
  at_get : List ℕ → List Request → Phase
  answered : List ℕ → List Request → Phase
  at_copying : List ℕ → List Request → Phase
  at_releasing : List ℕ → List Request → Phase

after_handling : Request → List Request → Phase
after_handling (set_kv _ _) e = at_set
after_handling (get_kv key) e = at_get key e
after_handling (del_kv _) e = at_del
after_handling close e = ending

next : Phase → Request → Message → List Request → Phase
next free r m e = at_writing r
next at_set r m e = free
next at_del r m e = ending
next ending r m e = ending
next (at_writing r) _ m e = at_posting r m
next (at_posting r m) _ _ e = posted r m
next (posted r m) _ _ e = at_handling r m
next (at_handling r m) _ _ e = after_handling r e
next (at_get key e) _ _ _ = answered key e
next (answered key e) _ _ _ = at_copying key e
next (at_copying key e) _ _ _ = at_releasing key e
next (at_releasing key e) _ _ _ = free

earlier : Phase → List Request
earlier (at_releasing key e) = e
earlier _ = []

-- One where the client has an answer in its hands.
unfoldable pub takes_answer : ClientPc → ℕ
takes_answer (copying _) = 1
takes_answer (releasing _) = 1
takes_answer _ = 0

module _ (lib : CacheLib) (pid : ℕ) where
  -- What a request does to the cache, and the text that a look-up gives.
  unfoldable pub execute : lib.State → Request → lib.State
  execute c (set_kv key value) = (set_value lib c pid key value).1
  execute c (get_kv key) = (get_value lib c key).1
  execute c (del_kv key) = (del_value lib c key).1
  execute c close = c

  -- The requests in the order of the list, which has the newest first.
  unfoldable pub replay : lib.State → List Request → lib.State
  replay c [] = c
  replay c (r ∷ rs) = execute (replay c rs) r

  unfoldable pub reply : lib.State → List ℕ → List ℕ
  reply c key = cstr (elim (get_value lib c key).0 [ none ↦ [] | some v ↦ v ])

  abbrev Places : System lib → ClientPc → ServerPc → ℕ → ℕ → ℕ → Type 0
  Places s c v a b g =
      (s.client ≡ c)
      × (s.server ≡ v)
      × (s.semaphore ≡ a)
      × (s.semaphore_server ≡ b)
      × (s.semaphore_get_back ≡ g)

  module _ (c₀ : lib.State) where
    abbrev Answer : List Request → List Request → List ℕ → List ℕ → Type 0
    Answer served e key v = (served ≡ get_kv (cstr key) ∷ e) × (v ≡ reply (replay c₀ e) (cstr key))

    unfoldable Holds : Phase → System lib → Type 0
    Holds free s = Places s idle polling 0 1 0 × (s.sent ≡ s.served)
    Holds at_set s = Places s idle post_set 0 0 0 × (s.sent ≡ s.served)
    Holds at_del s = Places s idle post_del 0 0 0 × (s.sent ≡ s.served)
    Holds ending s = IsEnding s.server × (takes_answer s.client ≡ 0) × (s.semaphore_get_back ≡ 0)
    Holds (at_writing r) s = Places s (writing r) polling 0 0 0 × (s.sent ≡ s.served)
    Holds (at_posting r m) s =
        Places s (posting r) polling 0 0 0 × (s.sent ≡ s.served) × (s.shm ≡ message pid m r)
    Holds (posted r m) s =
        Places s (after_post r) polling 1 0 0
        × (s.sent ≡ as_text r ∷ s.served)
        × (s.shm ≡ message pid m r)
    Holds (at_handling r m) s =
        Places s (after_post r) handling 0 0 0
        × (s.sent ≡ as_text r ∷ s.served)
        × (s.shm ≡ message pid m r)
    Holds (at_get key e) s =
        Places s (waiting key) post_get 0 0 0
        × (s.sent ≡ s.served)
        × Answer s.served e key (cstr s.shm.value)
    Holds (answered key e) s =
        Places s (waiting key) polling 0 0 1
        × (s.sent ≡ s.served)
        × Answer s.served e key (cstr s.shm.value)
    Holds (at_copying key e) s =
        Places s (copying key) polling 0 0 0
        × (s.sent ≡ s.served)
        × Answer s.served e key (cstr s.shm.value)
    Holds (at_releasing key e) s =
        Places s (releasing key) polling 0 0 0
        × (s.sent ≡ s.served)
        × Answer s.served e key s.get_value_buf

    abbrev Inv : Phase → System lib → Type 0
    Inv p s = Holds p s × (s.cache ≡ replay c₀ s.served)

    Step-Inv : {s t : System lib} (p : Phase) → Step lib pid s t → Inv p s → (q : Phase) × Inv q t
    unfolding Holds next takes_answer copy_value after_post after_handling serve handle message
        request_of as_text execute replay reply
    Step-Inv {s} p (c_take n r a b f) h = (next p r s.shm [], ground arith)
    Step-Inv {s} p (c_write r a) h = (next p r s.shm [], ground arith)
    Step-Inv {s} p (c_post r a) h = (next p r s.shm [], ground arith)
    Step-Inv {s} p (c_wait n k a b) h = (next p close s.shm [], ground arith)
    Step-Inv {s} p (c_copy k a) h = (next p close s.shm [], ground arith)
    Step-Inv {s} p (c_release k a) h = (next p close s.shm [], ground arith)
    Step-Inv {s} p (s_take n a b) h = (next p close s.shm [], ground arith)
    Step-Inv {s} p (s_handle a) h = (next p close s.shm s.served, ground arith)
    Step-Inv {s} p (s_post_set a) h = (next p close s.shm [], ground arith)
    Step-Inv {s} p (s_post_get a) h = (next p close s.shm [], ground arith)
    Step-Inv {s} p (s_post_del a) h = (next p close s.shm [], ground arith)
    Step-Inv {s} p (s_post_close a) h = (next p close s.shm [], ground arith)

    Reach-Inv : {m : Message} {s : System lib} → Reach lib pid m c₀ s → (p : Phase) × Inv p s
    unfolding Holds replay
    Reach-Inv start = (free, ground arith)
    Reach-Inv (later p q) = let (ph, h) = Reach-Inv p in Step-Inv ph q h

    -- In every state that is reached, the cache is what the served requests make of the first one,
    -- one after the other; and unless the server has come to its end, it has served all that was
    -- sent, or all but the newest request.
    pub cache-replay :
        {m : Message} {s : System lib}
        → Reach lib pid m c₀ s
        → (s.cache ≡ replay c₀ s.served)
          × (IsEnding s.server
              ⊎ ((s.sent ≡ s.served) ⊎ ((r : Request) × (s.sent ≡ as_text r ∷ s.served))))
    unfolding Holds
    cache-replay p = let (ph, h) = Reach-Inv p in go _ ph h
      where
        go :
            (s : System lib) (ph : Phase)
            → Inv ph s
            → (s.cache ≡ replay c₀ s.served)
              × (IsEnding s.server
                  ⊎ ((s.sent ≡ s.served) ⊎ ((r : Request) × (s.sent ≡ as_text r ∷ s.served))))
        go s (posted r m) h = (ground arith, inr (inr (r, ground arith)))
        go s (at_handling r m) h = (ground arith, inr (inr (r, ground arith)))
        go s free h = (ground arith, inr (inl (ground arith)))
        go s at_set h = (ground arith, inr (inl (ground arith)))
        go s at_del h = (ground arith, inr (inl (ground arith)))
        go s ending h = (ground arith, inl (ground arith))
        go s (at_writing r) h = (ground arith, inr (inl (ground arith)))
        go s (at_posting r m) h = (ground arith, inr (inl (ground arith)))
        go s (at_get k e) h = (ground arith, inr (inl (ground arith)))
        go s (answered k e) h = (ground arith, inr (inl (ground arith)))
        go s (at_copying k e) h = (ground arith, inr (inl (ground arith)))
        go s (at_releasing k e) h = (ground arith, inr (inl (ground arith)))

    -- When `getKV` has copied its answer, its look-up is the newest request that was sent and
    -- served, and the answer is the text that the cache has under the key after the requests before
    -- it, empty if there is none.
    pub get_kv-reply :
        {m : Message} {s : System lib} (key : List ℕ)
        → Reach lib pid m c₀ s
        → s.client ≡ releasing key
        → (e : List Request) × (s.served ≡ get_kv (cstr key) ∷ e)
          × (s.sent ≡ s.served)
          × (s.get_value_buf ≡ reply (replay c₀ e) (cstr key))
    unfolding Holds earlier takes_answer after_post
    get_kv-reply key p a =
        let (ph, h) = Reach-Inv p in (earlier ph, (ground arith), (ground arith), (ground arith))

    -- The two are never stuck: in every state that is reached, the server has come to its end, or
    -- one of them can take a step.
    pub never_stuck :
        {m : Message} {s : System lib}
        → Reach lib pid m c₀ s
        → IsEnding s.server ⊎ ((t : System lib) × Step lib pid s t)
    unfolding Holds
    never_stuck p = let (ph, h) = Reach-Inv p in go _ ph h
      where
        go :
            (s : System lib) (ph : Phase)
            → Inv ph s
            → IsEnding s.server ⊎ ((t : System lib) × Step lib pid s t)
        go s free h = inr (_, c_take 0 close (ground arith) (ground arith) tt)
        go s at_set h = inr (_, s_post_set (ground arith))
        go s at_del h = inr (_, s_post_del (ground arith))
        go s ending h = inl (ground arith)
        go s (at_writing r) h = inr (_, c_write r (ground arith))
        go s (at_posting r m) h = inr (_, c_post r (ground arith))
        go s (posted r m) h = inr (_, s_take 0 (ground arith) (ground arith))
        go s (at_handling r m) h = inr (_, s_handle (ground arith))
        go s (at_get k e) h = inr (_, s_post_get (ground arith))
        go s (answered k e) h = inr (_, c_wait 0 k (ground arith) (ground arith))
        go s (at_copying k e) h = inr (_, c_copy k (ground arith))
        go s (at_releasing k e) h = inr (_, c_release k (ground arith))

    -- A server that takes no more requests has left no answer with the client.
    pub ending-takes_answer :
        {m : Message} {s : System lib}
        → Reach lib pid m c₀ s
        → (s.server ≡ post_del) ⊎ IsEnding s.server
        → takes_answer s.client ≡ 0
    unfolding Holds takes_answer after_post
    ending-takes_answer p a = let (ph, h) = Reach-Inv p in ground arith
