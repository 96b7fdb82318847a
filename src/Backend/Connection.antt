-- ===== src/Backend/Connection.antt =====
-- The client that the backends use, filled by the connection to the cache server: what
-- clientserver/clientserver/clientAPI.cpp and server.cpp make of a call of `setKV`, `getKV` and
-- `delKV`, behind the prefix of the pool.
use cachelib_archive.Base.{
  ℕ, ◌-◌, ◌≡◌, ◌⊎◌, inl, inr, sym, ap, subst, ◌∙◌, none, some, List, [], ◌∷◌, ◌++◌, length, arith,
  true, false, Option-cases, Bool,
}
use cachelib_archive.CString.{cstr}
use cachelib_archive.CString.Laws.{IsText, cstr_whole}
use cachelib_archive.Cache.{CacheLib, set_value, get_value, del_value}
use cachelib_archive.Shm.{Request, Message, releasing, set_kv, get_kv, del_kv, close, shm_key_size}
use cachelib_archive.Shm.Protocol.{System, Reach}
use cachelib_archive.Shm.Served.{execute, replay, reply, get_kv-reply}
use cachelib_archive.Backend.{Client, IsSendable}
use cachelib_archive.Backend.Agreement.{append_cancel}

-- What the connection relies on in CacheLib: whatever is done, an entry may be gone; else a look-up
-- or an allocation leaves it, and a replacement changes the entry of its key alone.
pub record CacheLaws (lib : CacheLib) : Type 0 where
  pub find_find :
      (s : lib.State) (k k' v : List ℕ)
      → (lib.find (lib.find s k).1 k').0 ≡ some v
      → (lib.find s k').0 ≡ some v
  pub find_allocate :
      (s s' : lib.State) (pid : ℕ) (k : List ℕ) (n : ℕ) (k' v : List ℕ)
      → lib.allocate s pid k n ≡ some s'
      → (lib.find s' k').0 ≡ some v
      → (lib.find s k').0 ≡ some v
  pub find_insert :
      (s : lib.State) (k w k' v : List ℕ)
      → (lib.find (lib.insert_or_replace s k w) k').0 ≡ some v
      → ((k' ≡ k) × (v ≡ w)) ⊎ ((lib.find s k').0 ≡ some v)
  pub find_remove :
      (s : lib.State) (k k' v : List ℕ)
      → (lib.find (lib.remove s k).1 k').0 ≡ some v
      → (lib.find s k').0 ≡ some v

-- A `setKV` of the value under the key is among the requests.
abbrev pub WasSet : List ℕ → List ℕ → List Request → Type 0
WasSet key value [] = ⊥
WasSet key value (set_kv k w ∷ rs) = ((key ≡ k) × (value ≡ w)) ⊎ WasSet key value rs
WasSet key value (get_kv k ∷ rs) = WasSet key value rs
WasSet key value (del_kv k ∷ rs) = WasSet key value rs
WasSet key value (close ∷ rs) = WasSet key value rs

module _ (lib : CacheLib) (laws : CacheLaws lib) (pid : ℕ) where
  -- What the server holds after a `setKV` was there before, or is what it set.
  set_value-found :
      (s : lib.State) (k w k' v : List ℕ)
      → (lib.find (set_value lib s pid k w).1 k').0 ≡ some v
      → ((k' ≡ k) × (v ≡ w)) ⊎ ((lib.find s k').0 ≡ some v)
  unfolding set_value
  set_value-found s k w k' v h = elim (Option-cases (lib.allocate s pid k (length w))) [
    | inl full ↦
        let e : set_value lib s pid k w ≡ (false, s) = ground arith in
        inr (subst (λ (r : Bool × lib.State). (lib.find r.1 k').0 ≡ some v) e h)
    | inr (s', got) ↦
        let e : set_value lib s pid k w ≡ (true, lib.insert_or_replace s' k w) = ground arith in
        let h' = subst (λ (r : Bool × lib.State). (lib.find r.1 k').0 ≡ some v) e h in
        elim (laws.find_insert s' k w k' v h') [
          | inl new ↦ inl new
          | inr old ↦ inr (laws.find_allocate s s' pid k (length w) k' v got old)
        ]
  ]

  replay-found :
      (c₀ : lib.State) (rs : List Request) (key value : List ℕ)
      → (lib.find (replay lib pid c₀ rs) key).0 ≡ some value
      → WasSet key value rs ⊎ ((lib.find c₀ key).0 ≡ some value)
  unfolding replay execute get_value del_value
  replay-found c₀ [] key value h = inr h
  replay-found c₀ (set_kv k w ∷ rs) key value h =
      elim (set_value-found (replay lib pid c₀ rs) k w key value h) [
        | inl new ↦ inl (inl new)
        | inr old ↦ elim (replay-found c₀ rs key value old) [
          | inl was ↦ inl (inr was)
          | inr first ↦ inr first
        ]
      ]
  replay-found c₀ (get_kv k ∷ rs) key value h =
      replay-found c₀ rs key value (laws.find_find (replay lib pid c₀ rs) k key value h)
  replay-found c₀ (del_kv k ∷ rs) key value h =
      replay-found c₀ rs key value (laws.find_remove (replay lib pid c₀ rs) k key value h)
  replay-found c₀ (close ∷ rs) key value h = replay-found c₀ rs key value h

  reply-miss : (s : lib.State) (key : List ℕ) → (lib.find s key).0 ≡ none → reply lib pid s key ≡ []
  unfolding reply get_value cstr
  reply-miss s key h = ground arith

  reply-hit :
      (s : lib.State) (key value : List ℕ)
      → (lib.find s key).0 ≡ some value
      → reply lib pid s key ≡ cstr value
  unfolding reply get_value
  reply-hit s key value h = ground arith

  -- In every state of a connection to a cache that has nothing under the key, the text that `getKV`
  -- has copied is empty, or what an earlier served `setKV` stored under that key.
  pub get_kv-WasSet :
      (c₀ : lib.State) {m : Message} {s : System lib} (key : List ℕ)
      → Reach lib pid m c₀ s
      → s.client ≡ releasing key
      → (lib.find c₀ (cstr key)).0 ≡ none
      → (s.get_value_buf ≡ [])
        ⊎ ((value : List ℕ) × (s.get_value_buf ≡ cstr value) × WasSet (cstr key) value s.served)
  get_kv-WasSet c₀ key p at fresh =
      let (e, served, sent, answer) = get_kv-reply lib pid c₀ key p at in
      elim (Option-cases (lib.find (replay lib pid c₀ e) (cstr key)).0) [
        | inl miss ↦ inl (answer ∙ reply-miss (replay lib pid c₀ e) (cstr key) miss)
        | inr (value, hit) ↦
            let was : WasSet (cstr key) value e = elim (replay-found c₀ e (cstr key) value hit) [
              | inl w ↦ w
              | inr first ↦ absurd (ground arith)
            ] in
            inr (
              value,
              answer ∙ reply-hit (replay lib pid c₀ e) (cstr key) value hit,
              subst (WasSet (cstr key) value) (sym served) was,
            )
      ]

  -- The calls of a client in turn: each has been served when it returns.
  module _ (prefix : List ℕ) (text : IsText prefix) where
    unfoldable pub on_wire : List ℕ → List ℕ
    on_wire key = cstr (prefix ++ key)

    -- The cache has a value that reads as `v` under the key.
    abbrev pub HasText : lib.State → List ℕ → List ℕ → Type 0
    HasText s key v =
        IsText key × ((w : List ℕ) × ((lib.find s (on_wire key)).0 ≡ some w) × (v ≡ cstr w))

    unfoldable pub client_set : lib.State → List ℕ → List ℕ → lib.State
    client_set s key value = execute lib pid s (set_kv (on_wire key) (cstr value))

    unfoldable pub client_get : lib.State → List ℕ → List ℕ × lib.State
    client_get s key = (reply lib pid s (on_wire key), execute lib pid s (get_kv (on_wire key)))

    unfoldable pub client_del : lib.State → List ℕ → lib.State
    client_del s key = execute lib pid s (del_kv (on_wire key))

    pub has_get_law :
        (s : lib.State) (key : List ℕ)
        → IsText key
        → ((client_get s key).0 ≡ []) ⊎ HasText s key (client_get s key).0
    unfolding client_get
    has_get_law s key t = elim (Option-cases (lib.find s (on_wire key)).0) [
      | inl miss ↦ inl (reply-miss s (on_wire key) miss)
      | inr (w, hit) ↦ inr (t, (w, hit, reply-hit s (on_wire key) w hit))
    ]

    pub get_has_law :
        (s : lib.State) (key key' v : List ℕ)
        → HasText (client_get s key).1 key' v
        → HasText s key' v
    unfolding client_get execute get_value
    get_has_law s key key' v (t, (w, hit, e)) =
        (t, (w, laws.find_find s (on_wire key) (on_wire key') w hit, e))

    IsText-append : (a b : List ℕ) → IsText a → IsText b → IsText (a ++ b)
    IsText-append [] b x y = y
    IsText-append (c ∷ a) b x y = (x.0, IsText-append a b x.1 y)

    on_wire-cancel : (k k' : List ℕ) → IsText k → IsText k' → on_wire k' ≡ on_wire k → k' ≡ k
    unfolding on_wire
    on_wire-cancel k k' t t' e = append_cancel prefix k' k (
        sym (cstr_whole (prefix ++ k') (IsText-append prefix k' text t'))
        ∙ e
        ∙ cstr_whole (prefix ++ k) (IsText-append prefix k text t))

    pub set_has_law :
        (s : lib.State) (k v k' v' : List ℕ)
        → IsSendable (shm_key_size - length prefix) k v
        → HasText (client_set s k v) k' v'
        → HasText s k' v' ⊎ ((k' ≡ k) × (v' ≡ v))
    unfolding client_set execute
    set_has_law s k v k' v' (tk, tv, _, _) (t, (w, hit, e)) =
        elim (set_value-found s (on_wire k) (cstr v) (on_wire k') w hit) [
          | inl (same, is) ↦ inr (
            on_wire-cancel k k' tk t same,
            e ∙ ap cstr is ∙ ap cstr (cstr_whole v tv) ∙ cstr_whole v tv,
          )
          | inr old ↦ inl (t, (w, old, e))
        ]

    -- The connection as the client of a backend.
    abbrev pub connection : Client
    connection = record {
      State = lib.State;
      room = shm_key_size - length prefix;
      set_kv = client_set;
      get_kv = client_get;
      del_kv = client_del;
      Has = HasText;
      has_get = λ s k t l. has_get_law s k t;
      get_has = λ s k k' v t l h. get_has_law s k k' v h;
      set_has = set_has_law;
    }
