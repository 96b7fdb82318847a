-- ===== src/Backend/Agreement.antt =====
-- What a cache may answer, against what the database behind it has.
use cachelib_archive.Base.{
  ℕ, ◌<◌, ◌≡◌, ◌⊎◌, inl, inr, refl, sym, subst, Option, some, List, [], ◌∷◌, ◌++◌, length, ltb,
  arith, Bool-cases, Option-cases,
}
use cachelib_archive.CString.Laws.{IsText}
use cachelib_archive.Backend.{
  Client, AutoIncCache, IsSendable, int_string, cache_set, cache_get, full_key, max_value,
}

pub append_cancel : (a b c : List ℕ) → a ++ b ≡ a ++ c → b ≡ c
append_cancel [] b c e = e
append_cancel (x ∷ a) b c e = append_cancel a b c (ground arith)

module _ (lib : Client) where
  -- Whatever the cache may answer under a key is what the database has.
  abbrev pub Agrees : AutoIncCache lib → (List ℕ → Option (List ℕ)) → Type 0
  Agrees c get =
      (s : lib.State) (t v : List ℕ)
      → c.client ≡ some s
      → lib.Has s (full_key lib c t) v
      → get t ≡ some v

  pub full_key-cancel :
      (c : AutoIncCache lib) (t t' : List ℕ) → full_key lib c t ≡ full_key lib c t' → t ≡ t'
  unfolding full_key
  full_key-cancel c t t' e =
      let inner = append_cancel (int_string c.counter) _ _ e in
      let rest : c.subpool_name ++ b'_' ∷ t ≡ c.subpool_name ++ b'_' ∷ t' = ground arith in
      let behind = append_cancel c.subpool_name _ _ rest in ground arith

  pub set_client-Agrees :
      (c : AutoIncCache lib) (get : List ℕ → Option (List ℕ)) (s : lib.State) (t v : List ℕ)
      → c.client ≡ some s
      → Agrees c get
      → get t ≡ some v
      → IsSendable lib.room (full_key lib c t) v
      → Agrees (record c { client = some (lib.set_kv s (full_key lib c t) v) }) get
  unfolding full_key
  set_client-Agrees c get s t v e co d f s' t' v' e' h =
      let same : lib.set_kv s (full_key lib c t) v ≡ s' = ground arith in
      let h' = subst (λ (x : lib.State). lib.Has x (full_key lib c t') v') (sym same) h in
      elim (lib.set_has s (full_key lib c t) v (full_key lib c t') v' f h') [
        | inl old ↦ co s t' v' e old
        | inr (k, w) ↦
            let k' = full_key-cancel c t' t k in
            subst (λ (x : List ℕ). get x ≡ some v') (sym k')
              (subst (λ (x : List ℕ). get t ≡ some x) (sym w) d)
      ]

  pub cache_set-Agrees :
      (c : AutoIncCache lib) (get : List ℕ → Option (List ℕ)) (t v : List ℕ)
      → Agrees c get
      → get t ≡ some v
      → IsSendable lib.room (full_key lib c t) v
      → Agrees (cache_set lib c t v).1 get
  unfolding cache_set
  cache_set-Agrees c get t v co d f = elim (Bool-cases (ltb max_value (length v))) [
    | inl big ↦ rw big co
    | inr fits ↦ elim (Option-cases c.client) [
      | inl null ↦ rw fits (rw null co)
      | inr (s, e) ↦ rw fits (rw e (set_client-Agrees c get s t v e co d f))
    ]
  ]

  pub full_key-get :
      (c : AutoIncCache lib) (k t : List ℕ)
      → full_key lib (cache_get lib c k).1 t ≡ full_key lib c t
  unfolding full_key cache_get
  full_key-get c k t = elim (Option-cases c.client) [
    | inl null ↦ ground arith
    | inr (s, known) ↦ ground arith
  ]

  abbrev pub IsAnswer :
      AutoIncCache lib → (List ℕ → Option (List ℕ)) → List ℕ → List ℕ × AutoIncCache lib → Type 0
  IsAnswer c get t (answer, c') = ((answer ≡ []) ⊎ (get t ≡ some answer)) × Agrees c' get

  -- An answer of the cache is empty or what the database has.
  pub cache_get-Agrees :
      (c : AutoIncCache lib) (get : List ℕ → Option (List ℕ)) (t : List ℕ)
      → Agrees c get
      → IsText (full_key lib c t)
      → length (full_key lib c t) < lib.room
      → IsAnswer c get t (cache_get lib c t)
  unfolding cache_get full_key
  cache_get-Agrees c get t co x l = elim (Option-cases c.client) [
    | inl null ↦
        let e : cache_get lib c t ≡ ([], c) = ground arith in
        subst (IsAnswer c get t) (sym e) (inl refl, co)
    | inr (s, known) ↦
        let r = lib.get_kv s (full_key lib c t) in
        let e : cache_get lib c t ≡ (r.0, record c { client = some r.1 }) = ground arith in
        let answer : (r.0 ≡ []) ⊎ (get t ≡ some r.0) = elim (lib.has_get s (full_key lib c t) x l) [
          | inl h ↦ inl h
          | inr h ↦ inr (co s t _ known h)
        ] in
        subst (IsAnswer c get t) (sym e) (
          answer,
          λ s' t' v' e' h.
              let same : r.1 ≡ s' = ground arith in
              let h' = subst (λ (y : lib.State). lib.Has y (full_key lib c t') v') (sym same) h in
              co s t' v' known (lib.get_has s (full_key lib c t) (full_key lib c t') v' x l h'),
        )
  ]
