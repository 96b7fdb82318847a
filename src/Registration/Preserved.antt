-- ===== src/Registration/Preserved.antt =====
-- A registration keeps the registry sound, and so every registry that is reached is.
use cachelib_archive.Base.{
  ℕ, ◌+◌, ◌-◌, ◌<◌, ◌≤◌, ◌≡◌, ◌≢◌, refl, sym, ap, ◌∙◌, subst, inl, inr, Bool-cases, Bool, true,
  false, some, List, [], length, replicate, All, All-weaken, All-zip, if◌then◌else◌, arith,
  length-append, length-replicate,
}
use cachelib_archive.CString.{str_eq}
use cachelib_archive.CString.Laws.{str_eq_iff}
use cachelib_archive.Registration.{
  Thread, Asked, Registry, no_registry, record_of, adjust_size, taken, new_shm_id, register, Step,
  asks, registers, leaves, Reach, start, later, shm_id,
}
use cachelib_archive.Registration.Names.{shm_id-inj}
use cachelib_archive.Registration.Sound.{
  connections, count_of, next_of, Differ, IsSound, AskedRight, put-same, put-other,
  connections-none,
}
use cachelib_archive.Registration.Leaving.{leave-IsSound, ask-IsSound}

length-adjust_size :
    (xs : List ℕ) (n : ℕ)
    → (length xs ≤ length (adjust_size xs n)) × (n < length (adjust_size xs n))
unfolding adjust_size
length-adjust_size xs n =
    let a = length-append xs (replicate (n + 1 - length xs) 0) in
    let r = length-replicate {0} {A = ℕ} (n + 1 - length xs) 0 in
    ((omega (arith, a, r)), (omega (arith, a, r)))

-- What a registration does to a thread that runs.
record IsSpared (s : Registry) (a : Asked) (u : Thread) : Type 0 where
  given : u.no < next_of (register s a) u.pool_name
  placed : u.no < length ((register s a).total_get u.pool_name)
  differs : Differ (record { pool_name = a.pool_name; no = new_shm_id s a }) u

module _ (s : Registry) (a : Asked) where
  register-same :
      (name : List ℕ)
      → str_eq a.pool_name name ≡ true
      → ((register s a).pool_record name ≡ some (taken s a))
        × ((register s a).total_get name
            ≡ adjust_size (if a.is_new then [] else s.total_get a.pool_name) (new_shm_id s a))
  unfolding register
  register-same name e =
      (put-same s.pool_record a.pool_name name _ e, put-same s.total_get a.pool_name name _ e)

  register-other :
      (name : List ℕ)
      → str_eq a.pool_name name ≡ false
      → ((register s a).pool_record name ≡ s.pool_record name)
        × ((register s a).total_get name ≡ s.total_get name)
  unfolding register
  register-other name e =
      (put-other s.pool_record a.pool_name name _ e, put-other s.total_get a.pool_name name _ e)

  register-count :
      AskedRight s (some a)
      → (name : List ℕ)
      → count_of (register s a) name ≡ (if str_eq a.pool_name name then 1 else 0) + count_of s name
  unfolding taken
  register-count right name = elim (Bool-cases (str_eq a.pool_name name)) [
    | inl same ↦
        let e : a.pool_name ≡ name = (str_eq_iff a.pool_name name).0 same in
        let e' = ap (count_of s) e in
        let first = ap (λ r. (record_of r).first) (register-same name same).0 in
        elim (Bool-cases a.is_new) [
          | inl new ↦ let zero_now = right new in ground (arith, e', first, zero_now)
          | inr old ↦ ground (arith, e', first)
        ]
    | inr differs ↦
        let first = ap (λ r. (record_of r).first) (register-other name differs).0 in
        ground (arith, first)
  ]

  -- What is known of a thread that runs.
  abbrev Before : Thread → Type 0
  Before u =
      (u.no < next_of s u.pool_name)
      × (u.no < length (s.total_get u.pool_name))
      × (a.is_new ≡ true → str_eq a.pool_name u.pool_name ≡ false)

  IsSpared-same :
      (u : Thread)
      → Before u
      → str_eq a.pool_name u.pool_name ≡ true
      → a.is_new ≡ false
      → IsSpared s a u
  unfolding taken new_shm_id
  IsSpared-same u (low, at, fresh) same old =
      let e : a.pool_name ≡ u.pool_name = (str_eq_iff a.pool_name u.pool_name).0 same in
      let next = ap (next_of s) e in
      let size = ap (λ n. length (s.total_get n)) e in
      let second = ap (λ r. (record_of r).second) (register-same u.pool_name same).0 in
      let total = ap length (register-same u.pool_name same).1 in
      let long = length-adjust_size (s.total_get a.pool_name) (new_shm_id s a) in
      let vector =
        ap
          (λ (b : Bool).
            length (adjust_size (if b then [] else s.total_get a.pool_name) (new_shm_id s a)))
          old in
      record {
        given = ground (arith, second, next, old);
        placed = omega (arith, total, vector, long.0, size);
        differs = λ p q. ground (arith, next, old);
      }

  IsSpared-other : (u : Thread) → Before u → str_eq a.pool_name u.pool_name ≡ false → IsSpared s a u
  IsSpared-other u (low, at, fresh) differs =
      let (records, total) = register-other u.pool_name differs in
      let next = ap (λ r. (record_of r).second) records in
      let vector = ap length total in
      record {
        given = omega (arith, next);
        placed = omega (arith, vector);
        differs = λ p. let same = (str_eq_iff a.pool_name u.pool_name).1 p in absurd (ground arith);
      }

  register-Spared : (u : Thread) → Before u → IsSpared s a u
  register-Spared u b = elim (Bool-cases (str_eq a.pool_name u.pool_name)) [
    | inr differs ↦ IsSpared-other u b differs
    | inl same ↦ elim (Bool-cases a.is_new) [
      | inl new ↦ let fresh = b.2 new in absurd (ground arith)
      | inr old ↦ IsSpared-same u b same old
    ]
  ]

  -- The new thread itself.
  register-own :
      (new_shm_id s a < next_of (register s a) a.pool_name)
      × (new_shm_id s a < length ((register s a).total_get a.pool_name))
  unfolding taken new_shm_id
  register-own =
      let (records, total) =
        register-same a.pool_name ((str_eq_iff a.pool_name a.pool_name).1 refl) in
      let next = ap (λ r. (record_of r).second) records in
      let vector = ap length total in
      let long =
        length-adjust_size (if a.is_new then [] else s.total_get a.pool_name) (new_shm_id s a) in
      ((ground (arith, next)), (omega (arith, vector, long.1)))

  fresh_pool :
      IsSound s
      → AskedRight s (some a)
      → All (λ u. a.is_new ≡ true → str_eq a.pool_name u.pool_name ≡ false) s.threads
  fresh_pool h right = elim (Bool-cases a.is_new) [
    | inl new ↦
        All-weaken _ _ s.threads (λ u e n. e)
          (connections-none a.pool_name s.threads (sym (h.counted a.pool_name) ∙ right new))
    | inr old ↦ All-weaken _ _ s.threads (λ u p n. absurd (ground arith)) h.given
  ]

  register-IsSound : IsSound s → s.asked ≡ some a → IsSound (register s a)
  unfolding connections register
  register-IsSound h e =
      let right = subst (AskedRight s) e h.asked_right in
      let spared =
        All-weaken _ (IsSpared s a) s.threads
          (λ u (low, (at, fresh)). register-Spared u (low, at, fresh))
          (All-zip _ _ s.threads h.given (All-zip _ _ s.threads h.placed (fresh_pool h right))) in
      let (low, at) = register-own in
      record {
        counted = λ name. omega (arith, register-count right name, h.counted name);
        given = (low, All-weaken _ _ s.threads (λ u p. p.given) spared);
        distinct = (All-weaken _ _ s.threads (λ u p. p.differs) spared, h.distinct);
        placed = (at, All-weaken _ _ s.threads (λ u p. p.placed) spared);
        asked_right = tt;
      }

Step-IsSound : (s t : Registry) → Step s t → IsSound s → IsSound t
Step-IsSound s t (asks name free) h = ask-IsSound s name h
Step-IsSound s t (registers a e) h = register-IsSound s a h e
Step-IsSound s t (leaves i u at) h = leave-IsSound s i u at h

no_registry-IsSound : IsSound no_registry
unfolding connections
no_registry-IsSound = record {
  counted = λ name. refl;
  given = tt;
  distinct = tt;
  placed = tt;
  asked_right = tt;
}

-- Whatever the order in which clients ask, are registered and leave: each pool's record counts its
-- running threads, no two running threads of a pool have the same number, each number is below
-- the next one to be given and within the pool's vector of statistics, and a registration that
-- resets a pool's numbers finds no thread of it, even where threads end between its test and its
-- change of the record.
pub Reach-IsSound : (s : Registry) → Reach s → IsSound s
Reach-IsSound s start = no_registry-IsSound
Reach-IsSound t (later r step) = Step-IsSound _ t step (Reach-IsSound _ r)

-- A name is not that of the thread's shared memory.
abbrev pub NotOf : List ℕ → Thread → Type 0
NotOf name t = name ≢ shm_id t.pool_name t.no

-- In a registry that was reached, the name that the next registration gives its shared memory is
-- that of no running thread.
pub register-NotOf :
    (s : Registry) (a : Asked)
    → Reach s
    → s.asked ≡ some a
    → All (NotOf (shm_id a.pool_name (new_shm_id s a))) s.threads
unfolding register
register-NotOf s a r e =
    let h = Reach-IsSound (register s a) (later r (registers a e)) in
    All-weaken _ _ s.threads
      (λ u d p. let (q, n) = shm_id-inj a.pool_name u.pool_name (new_shm_id s a) u.no p in d q n)
      h.distinct.0
