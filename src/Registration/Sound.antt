-- ===== src/Registration/Sound.antt =====
-- What holds of the registry whatever the clients do: the connections are counted, numbers are not
-- given twice, and each has its place in the statistics.
use cachelib_archive.Base.{
  ℕ, zero, suc, ◌+◌, ◌<◌, ◌≡◌, ◌≢◌, refl, sym, ap, inl, inr, Bool-cases, true, false, Option, none,
  some, List, [], ◌∷◌, length, get_elem?, remove_at, All, All-remove_at, if◌then◌else◌, arith,
}
use cachelib_archive.CString.{str_eq}
use cachelib_archive.CString.Laws.{str_eq_iff}
use cachelib_archive.Registration.{Thread, Asked, Registry, put, record_of}

-- The number of a pool's threads.
unfoldable pub connections : List ℕ → List Thread → ℕ
connections name [] = 0
connections name (t ∷ ts) = (if str_eq t.pool_name name then 1 else 0) + connections name ts

abbrev pub count_of : Registry → List ℕ → ℕ
count_of s name = (record_of (s.pool_record name)).first

abbrev pub next_of : Registry → List ℕ → ℕ
next_of s name = (record_of (s.pool_record name)).second

abbrev pub Differ : Thread → Thread → Type 0
Differ t u = t.pool_name ≡ u.pool_name → t.no ≢ u.no

-- No two of the threads share pool and number.
abbrev pub IsDistinct : List Thread → Type 0
IsDistinct [] = Unit {0}
IsDistinct (t ∷ ts) = All (Differ t) ts × IsDistinct ts

-- A registration that goes for a new pool finds no connection of it.
abbrev pub AskedRight : Registry → Option Asked → Type 0
AskedRight s none = Unit {0}
AskedRight s (some a) = a.is_new ≡ true → count_of s a.pool_name ≡ 0

pub record IsSound (s : Registry) : Type 0 where
  pub counted : (name : List ℕ) → count_of s name ≡ connections name s.threads
  pub given : All (λ t. t.no < next_of s t.pool_name) s.threads
  pub distinct : IsDistinct s.threads
  pub placed : All (λ t. t.no < length (s.total_get t.pool_name)) s.threads
  pub asked_right : AskedRight s s.asked

pub put-same :
    {A : Type 0} (m : List ℕ → A) (key k : List ℕ) (v : A) → str_eq key k ≡ true → put m key v k ≡ v
unfolding put
put-same m key k v e = rw e refl

pub put-other :
    {A : Type 0} (m : List ℕ → A) (key k : List ℕ) (v : A)
    → str_eq key k ≡ false
    → put m key v k ≡ m k
unfolding put
put-other m key k v e = rw e refl

pub connections-none :
    (name : List ℕ) (ts : List Thread)
    → connections name ts ≡ 0
    → All (λ t. str_eq name t.pool_name ≡ false) ts
unfolding connections
connections-none name [] h = tt
connections-none name (t ∷ ts) h = elim (Bool-cases (str_eq name t.pool_name)) [
  | inl same ↦
      let e : str_eq t.pool_name name ≡ true =
        (str_eq_iff t.pool_name name).1 (sym ((str_eq_iff name t.pool_name).0 same)) in
      absurd (ground arith)
  | inr differs ↦ (differs, connections-none name ts (ground arith))
]

pub connections-remove_at :
    (name : List ℕ) (ts : List Thread) (i : ℕ) (t : Thread)
    → get_elem? ts i ≡ some t
    → connections name ts
      ≡ (if str_eq t.pool_name name then 1 else 0) + connections name (remove_at ts i)
unfolding connections
connections-remove_at name [] i t h = absurd (ground arith)
connections-remove_at name (u ∷ ts) zero t h =
    let e : u ≡ t = ground arith in
    ap (λ x. (if str_eq x.pool_name name then 1 else 0) + connections name ts) e
connections-remove_at name (u ∷ ts) (suc i) t h =
    let ih = connections-remove_at name ts i t h in omega (arith, ih)

pub IsDistinct-remove_at : (ts : List Thread) (i : ℕ) → IsDistinct ts → IsDistinct (remove_at ts i)
IsDistinct-remove_at [] i h = tt
IsDistinct-remove_at (t ∷ ts) zero (p, h) = h
IsDistinct-remove_at (t ∷ ts) (suc i) (p, h) =
    (All-remove_at (Differ t) ts i p, IsDistinct-remove_at ts i h)
