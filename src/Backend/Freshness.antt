-- ===== src/Backend/Freshness.antt =====
-- Why `invalidate_all_` makes every entry of a cache unreachable: it moves on to a counter under
-- which nothing was ever stored.
use cachelib_archive.Base.{
  ℕ, ◌+◌, ◌<◌, ◌≡◌, inl, inr, sym, subst, ap, ◌∙◌, ◌^◌, ◌%◌, some, Option, List, [], ◌∷◌, ◌++◌, ltb,
  length, arith, Bool-cases, Option-cases,
}
use cachelib_archive.Backend.{
  Client, AutoIncCache, IsSendable, int_string, to_string, cache_set, cache_get, full_key,
  invalidate_all, max_value,
}
use cachelib_archive.CString.Laws.{IsText}
use cachelib_archive.Backend.Numbers.{to_string-cancel}
use cachelib_archive.Backend.Agreement.{Agrees}

int_string-cancel :
    (n m : ℕ) (x y : List ℕ)
    → n < 2 ^ 31
    → m < 2 ^ 31
    → int_string n ++ b'_' ∷ x ≡ int_string m ++ b'_' ∷ y
    → n ≡ m
unfolding int_string
int_string-cancel n m x y a b e =
    let p : int_string n ≡ to_string n = ground arith in
    let q : int_string m ≡ to_string m = ground arith in
    to_string-cancel n m x y
      (ap (λ (s : List ℕ). s ++ b'_' ∷ x) (sym p) ∙ e ∙ ap (λ (s : List ℕ). s ++ b'_' ∷ y) q)

module _ (lib : Client) where
  -- Under a counter beyond the cache's own, and within an `int`, there is nothing.
  abbrev pub IsFresh : AutoIncCache lib → Type 0
  IsFresh c =
      (s : lib.State) (n : ℕ) (rest v : List ℕ)
      → c.client ≡ some s
      → c.counter < n
      → n < 2 ^ 31
      → lib.Has s (int_string n ++ b'_' ∷ rest) v
      → ⊥

  pub cache_set-IsFresh :
      (c : AutoIncCache lib) (t v : List ℕ)
      → IsFresh c
      → IsSendable lib.room (full_key lib c t) v
      → IsFresh (cache_set lib c t v).1
  unfolding cache_set full_key
  cache_set-IsFresh c t v fresh send = elim (Bool-cases (ltb max_value (length v))) [
    | inl big ↦ rw big fresh
    | inr fits ↦ elim (Option-cases c.client) [
      | inl null ↦ rw fits (rw null fresh)
      | inr (s, known) ↦ rw fits (
          rw known (λ s' n rest v' e later small h.
            let key = int_string c.counter ++ b'_' ∷ (c.subpool_name ++ b'_' ∷ t) in
            let same : lib.set_kv s key v ≡ s' = ground arith in
            let h' =
              subst (λ (x : lib.State). lib.Has x (int_string n ++ b'_' ∷ rest) v') (sym same) h in
            elim (lib.set_has s key v (int_string n ++ b'_' ∷ rest) v' send h') [
              | inl old ↦ fresh s n rest v' known later small old
              | inr (k, w) ↦
                  let counters = int_string-cancel n c.counter _ _ small (omega arith) k in
                  omega arith
            ]))
    ]
  ]

  pub cache_get-IsFresh :
      (c : AutoIncCache lib) (t : List ℕ)
      → IsFresh c
      → IsText (full_key lib c t)
      → length (full_key lib c t) < lib.room
      → IsFresh (cache_get lib c t).1
  unfolding cache_get full_key
  cache_get-IsFresh c t fresh x l = elim (Option-cases c.client) [
    | inl null ↦
        let e : cache_get lib c t ≡ ([], c) = ground arith in
        subst (λ (r : List ℕ × AutoIncCache lib). IsFresh r.1) (sym e) fresh
    | inr (s, known) ↦
        let key = int_string c.counter ++ b'_' ∷ (c.subpool_name ++ b'_' ∷ t) in
        let r = lib.get_kv s key in
        let e : cache_get lib c t ≡ (r.0, record c { client = some r.1 }) = ground arith in
        subst (λ (p : List ℕ × AutoIncCache lib). IsFresh p.1) (sym e)
          (λ s' n rest v' e later small h.
            let same : r.1 ≡ s' = ground arith in
            let h' =
              subst (λ (y : lib.State). lib.Has y (int_string n ++ b'_' ∷ rest) v') (sym same) h in
            fresh s n rest v' known later small (lib.get_has s key _ v' x l h'))
  ]

  -- After `invalidate_all_` the cache agrees with any database, and stays fresh.
  pub invalidate_all-Agrees :
      (c : AutoIncCache lib) (get : List ℕ → Option (List ℕ))
      → IsFresh c
      → c.counter + 1 < 2 ^ 31
      → Agrees lib (invalidate_all lib c) get × IsFresh (invalidate_all lib c)
  unfolding invalidate_all full_key
  invalidate_all-Agrees c get fresh room =
      let next : (c.counter + 1) % 2 ^ 32 ≡ c.counter + 1 = omega arith in
      (
        (λ s t v e h. absurd (
            fresh s ((c.counter + 1) % 2 ^ 32) (c.subpool_name ++ b'_' ∷ t) v e (omega arith)
              (omega arith) h)),
        λ s n rest v e later small h. fresh s n rest v e (omega arith) small h,
      )
