-- ===== src/Registration/Leaving.antt =====
-- The end of a thread and the test of a pool's record keep the registry sound.
use cachelib_archive.Base.{
  ℕ, ◌-◌, ◌≡◌, refl, ap, ◌∙◌, inl, inr, Bool-cases, true, Option, none, some, List, get_elem?,
  All-weaken, All-remove_at, if◌then◌else◌, arith,
}
use cachelib_archive.CString.{str_eq}
use cachelib_archive.CString.Laws.{str_eq_iff}
use cachelib_archive.Registration.{
  PoolRecord, Thread, Asked, Registry, one_less, record_of, is_new_pool, ask, leave,
}
use cachelib_archive.Registration.Sound.{
  count_of, next_of, IsSound, AskedRight, put-same, put-other, connections-remove_at,
  IsDistinct-remove_at,
}

module _ (s : Registry) (i : ℕ) (t : Thread) (at : get_elem? s.threads i ≡ some t) where
  leave-record :
      (name : List ℕ)
      → record_of ((leave s i t).pool_record name) ≡ (
          if str_eq t.pool_name name
          then one_less (record_of (s.pool_record name))
          else record_of (s.pool_record name))
  unfolding leave
  leave-record name = elim (Bool-cases (str_eq t.pool_name name)) [
    | inl same ↦
        let e : t.pool_name ≡ name = (str_eq_iff t.pool_name name).0 same in
        rw same (
          ap record_of (put-same s.pool_record t.pool_name name _ same)
          ∙ ap (λ n. one_less (record_of (s.pool_record n))) e)
    | inr differs ↦ rw differs (ap record_of (put-other s.pool_record t.pool_name name _ differs))
  ]

  leave-next : (name : List ℕ) → next_of (leave s i t) name ≡ next_of s name
  leave-next name = elim (Bool-cases (str_eq t.pool_name name)) [
    | inl same ↦ ap (λ r. r.second) (let e = leave-record name in rw same at e)
    | inr differs ↦ ap (λ r. r.second) (let e = leave-record name in rw differs at e)
  ]

  leave-count :
      (name : List ℕ)
      → count_of (leave s i t) name ≡ count_of s name - (if str_eq t.pool_name name then 1 else 0)
  leave-count name = elim (Bool-cases (str_eq t.pool_name name)) [
    | inl same ↦ let e = leave-record name in rw same (ap (λ r. r.first) (rw same at e))
    | inr differs ↦
        let e = leave-record name in
        let e' = ap (λ r. r.first) (rw differs at e) in rw differs (omega (arith, e'))
  ]

  leave-asked : (o : Option Asked) → AskedRight s o → AskedRight (leave s i t) o
  leave-asked none h = tt
  leave-asked (some a) h = λ new. let e = h new in omega (arith, e, leave-count a.pool_name)

  pub leave-IsSound : IsSound s → IsSound (leave s i t)
  unfolding leave
  leave-IsSound h = record {
    counted = λ name.
        let c = connections-remove_at name s.threads i t at in
        omega (arith, c, leave-count name, h.counted name);
    given =
        All-remove_at _ s.threads i
          (All-weaken _ _ s.threads (λ u p. rw (leave-next u.pool_name) p) h.given);
    distinct = IsDistinct-remove_at s.threads i h.distinct;
    placed = All-remove_at _ s.threads i h.placed;
    asked_right = leave-asked s.asked h.asked_right;
  }

is_new_pool-first : (r : Option PoolRecord) → is_new_pool r ≡ true → (record_of r).first ≡ 0
unfolding is_new_pool
is_new_pool-first none e = refl
is_new_pool-first (some r) e = ground arith

pub ask-IsSound : (s : Registry) (name : List ℕ) → IsSound s → IsSound (ask s name)
ask-IsSound s name h = record {
  counted = h.counted;
  given = h.given;
  distinct = h.distinct;
  placed = h.placed;
  asked_right = is_new_pool-first (s.pool_record name);
}
