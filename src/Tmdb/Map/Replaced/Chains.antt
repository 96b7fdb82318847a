-- ===== src/Tmdb/Map/Replaced/Chains.antt =====
-- The chains after the replacement of a value: the key's entry points to the start of the data file.
use mathlib.Core.Option
use cachelib_archive.Base.{
  All, ℕ, ◌+◌, ◌^◌, ◌≤◌, ◌<◌, ◌≡◌, ◌≢◌, refl, sym, ap, ◌∙◌, subst, inl, inr, true, none, some, List,
  [], ◌∷◌, arith, length, if◌then◌else◌, Bool-cases,
}
use cachelib_archive.Stdio.{File, write_at}
use cachelib_archive.Stdio.Ints.{le_bytes, length-le_bytes}
use cachelib_archive.Stdio.Frame.{write_at-frame, size-le-write_at}
use cachelib_archive.CString.{str_eq}
use cachelib_archive.CString.Laws.{str_eq_iff}
use cachelib_archive.Tmdb.Handle.{db_hash}
use cachelib_archive.Tmdb.Slot.{IsRecord, IsRecord-frame, apart, one_key}
use cachelib_archive.Tmdb.Chain.{Entry, Chain, Rising, find_entry}
use cachelib_archive.Tmdb.Link.{Spared, Chain-frame}
use cachelib_archive.Tmdb.Map.{buckets}
use cachelib_archive.Tmdb.Map.Replaced.Bytes.{IsRecord-replaced}

-- The entry of the key with an empty value at the start of the data file.
abbrev pub emptied : List ℕ → List Entry → List Entry
emptied key [] = []
emptied key (e ∷ es) =
    let rest = emptied key es in
    if str_eq e.key key then record e { data_ptr = 0; value = [] } ∷ es else e ∷ rest

pub length-emptied : (key : List ℕ) (es : List Entry) → length (emptied key es) ≡ length es
length-emptied key [] = refl
length-emptied key (e ∷ es) = ground (arith, length-emptied key es)

pub emptied-none : (key : List ℕ) (es : List Entry) → find_entry key es ≡ none → emptied key es ≡ es
unfolding find_entry
emptied-none key [] h = refl
emptied-none key (e ∷ es) h = elim (Bool-cases (str_eq e.key key)) [
  | inl hit ↦ let no : some e ≡ none = rw hit at h in absurd (ground arith)
  | inr miss ↦ rw miss (ap (◌∷◌ e) (emptied-none key es (rw miss at h)))
]

-- What holds of all entries, and of the key's with its new pointer.
pub All-emptied {κ} :
    (P : Entry → Type κ) (key : List ℕ) (es : List Entry)
    → ((e : Entry) → P e → P (record e { data_ptr = 0; value = [] }))
    → All P es
    → All P (emptied key es)
All-emptied P key [] f a = tt
All-emptied P key (e ∷ es) f a = elim (Bool-cases (str_eq e.key key)) [
  | inl hit ↦ rw hit (f e a.0, a.1)
  | inr miss ↦ rw miss (a.0, All-emptied P key es f a.1)
]

pub Rising-emptied :
    (n : ℕ) (key : List ℕ) (es : List Entry) → Rising n es → Rising n (emptied key es)
Rising-emptied n key [] r = tt
Rising-emptied n key (e ∷ es) r = elim (Bool-cases (str_eq e.key key)) [
  | inl hit ↦ rw hit (r.0, r.1)
  | inr miss ↦ rw miss (r.0, Rising-emptied e.ptr key es r.1)
]

abbrev Elsewhere : ℕ → List Entry → Type 0
Elsewhere l = All (λ e. e.ptr ≢ l)

-- The write into the record at `l` spares the chains that have no entry there.
Spared-Elsewhere :
    {f : File} {l : ℕ} {j : List ℕ} {d m : ℕ} (p q : ℕ) (es : List Entry)
    → Chain f p es
    → IsRecord f l j d m
    → Elsewhere l es
    → Spared f (write_at f (l + 68) (le_bytes 8 q)) es
Spared-Elsewhere p q [] c r a = tt
Spared-Elsewhere {f} {l} p q (e ∷ es) (n, at, s, c) r a = (
  write_at-frame f (l + 68) (le_bytes 8 q) e.ptr 88 s.inside
      (omega (arith, length-le_bytes 8 q, apart s r a.0)),
  Spared-Elsewhere n q es c r a.1,
)

Elsewhere-Rising : (l n : ℕ) (es : List Entry) → l ≤ n → Rising n es → Elsewhere l es
Elsewhere-Rising l n [] h r = tt
Elsewhere-Rising l n (e ∷ es) h r =
    (omega (arith, r.0), Elsewhere-Rising l e.ptr es (omega (arith, r.0)) r.1)

Elsewhere-Hashed :
    {f : File} {l : ℕ} {j : List ℕ} {d m : ℕ} (b c p : ℕ) (es : List Entry)
    → Chain f p es
    → IsRecord f l j d m
    → db_hash buckets j ≡ b
    → All (λ e. db_hash buckets e.key ≡ c) es
    → c ≢ b
    → Elsewhere l es
Elsewhere-Hashed b c p [] ch r hj hs ne = tt
Elsewhere-Hashed b c p (e ∷ es) (n, at, s, ch) r hj hs ne = (
  λ same. ne (sym hs.0 ∙ ap (db_hash buckets) (one_key s r same) ∙ hj),
  Elsewhere-Hashed b c n es ch r hj hs.1 ne,
)

-- The record of an entry that was found, and where it stands.
pub found-IsRecord :
    {f : File} (key : List ℕ) (n p : ℕ) (es : List Entry) (x : Entry)
    → Chain f p es
    → Rising n es
    → find_entry key es ≡ some x
    → (m : ℕ) × IsRecord f x.ptr x.key x.data_ptr m × (x.key ≡ key) × (n < x.ptr)
unfolding find_entry
found-IsRecord key n p [] x c r h = cc
found-IsRecord {f} key n p (e ∷ es) x (m, at, s, c) r h = elim (Bool-cases (str_eq e.key key)) [
  | inl hit ↦
      let first : some e ≡ some x = rw hit at h in
      let same : e ≡ x = cc in
      subst (λ x. (m : ℕ) × IsRecord f x.ptr x.key x.data_ptr m × (x.key ≡ key) × (n < x.ptr)) same
        (m, s, (str_eq_iff e.key key).0 hit, r.0)
  | inr miss ↦
      let (m', s', is, l) = found-IsRecord key e.ptr m es x c r.1 (rw miss at h) in
      (m', s', is, omega (arith, r.0))
]

module _ (f : File) (key : List ℕ) (x : Entry) (q : ℕ) (short : length key < 64)
    (low : x.data_ptr < 2 ^ 32) (fits : q < 2 ^ 32) where
  abbrev g : File
  g = write_at f (x.ptr + 68) (le_bytes 8 q)

  -- The key's entry stands first.
  own-first :
      (n p : ℕ) (es : List Entry)
      → Chain f p (x ∷ es)
      → Rising n (x ∷ es)
      → x.key ≡ key
      → Chain g p (record x { data_ptr = 0; value = [] } ∷ es)
  own-first n p es (m, at, s, c) r is = (
    m,
    at,
    IsRecord-replaced s (rw is short) low q fits,
    Chain-frame f g m es (size-le-write_at f _ _)
        (Spared-Elsewhere m q es c s (Elsewhere-Rising x.ptr x.ptr es (omega arith) r.1)) c,
  )

  -- The chain that has the key.
  pub own-Chain :
      (n p : ℕ) (es : List Entry)
      → Chain f p es
      → Rising n es
      → find_entry key es ≡ some x
      → Chain g p (emptied key es)
  unfolding find_entry
  own-Chain n p [] c r h = cc
  own-Chain n p (e ∷ es) (m, at, s, c) r h = elim (Bool-cases (str_eq e.key key)) [
    | inl hit ↦
        let first : some x ≡ some e = sym (rw hit at h) in
        let same : x ≡ e = cc in
        let own : Chain f p (e ∷ es) = (m, at, s, c) in
        let is : e.key ≡ key = (str_eq_iff e.key key).0 hit in
        rw hit (
          subst (λ e. Chain g p (record e { data_ptr = 0; value = [] } ∷ es)) same
            (own-first n p es (subst (λ e. Chain f p (e ∷ es)) (sym same) own)
              (subst (λ e. Rising n (e ∷ es)) (sym same) r) (ap (λ e. e.key) same ∙ is)))
    | inr miss ↦
        let there : find_entry key es ≡ some x = rw miss at h in
        let (_, s', is, l) = found-IsRecord key e.ptr m es x c r.1 there in
        rw miss (
          m,
          at,
          IsRecord-frame s g (size-le-write_at f _ _) (
              write_at-frame f (x.ptr + 68) (le_bytes 8 q) e.ptr 88 s.inside
                (omega (arith, length-le_bytes 8 q, apart s s' (omega (arith, l))))),
          own-Chain e.ptr m es c r.1 there,
        )
  ]

  -- The chain of another bucket.
  pub other-Chain :
      {j : List ℕ} {d m : ℕ} (b c p : ℕ) (es : List Entry)
      → Chain f p es
      → IsRecord f x.ptr j d m
      → db_hash buckets j ≡ b
      → All (λ e. db_hash buckets e.key ≡ c) es
      → c ≢ b
      → Chain g p es
  other-Chain b c p es ch r hj hs ne =
      Chain-frame f g p es (size-le-write_at f _ _)
        (Spared-Elsewhere p q es ch r (Elsewhere-Hashed b c p es ch r hj hs ne)) ch

-- What a search finds among the entries.
pub find_entry-emptied :
    (key j : List ℕ) (es : List Entry)
    → Option.map (λ e. e.value) (find_entry j (emptied key es)) ≡ (
        if str_eq key j
        then Option.map (λ e. []) (find_entry j es)
        else Option.map (λ e. e.value) (find_entry j es))
unfolding find_entry
find_entry-emptied key j [] = ground arith
find_entry-emptied key j (e ∷ es) = elim (Bool-cases (str_eq e.key key)) [
  | inl hit ↦ let is : e.key ≡ key = (str_eq_iff e.key key).0 hit in rw hit (rw is (ground arith))
  | inr miss ↦ elim (Bool-cases (str_eq e.key j)) [
    | inl own ↦
        let is : e.key ≡ j = (str_eq_iff e.key j).0 own in
        elim (Bool-cases (str_eq key j)) [
          | inl eq ↦
              let no : str_eq e.key key ≡ true =
                (str_eq_iff e.key key).1 (is ∙ sym ((str_eq_iff key j).0 eq)) in
              absurd (ground arith)
          | inr ne ↦ rw (miss, ne, own)
        ]
    | inr away ↦ rw (miss, away) (find_entry-emptied key j es)
  ]
]
