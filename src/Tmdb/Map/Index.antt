-- ===== src/Tmdb/Map/Index.antt =====
-- The index after a new key record: the chain of its bucket has one more entry.
use cachelib_archive.Base.{
  All, ℕ, suc, ◌+◌, ◌^◌, ◌≤◌, ◌<◌, ◌≡◌, ◌≢◌, refl, sym, ap, ◌∙◌, ◌⊎◌, inl, inr, List, [], ◌∷◌, ◌++◌,
  arith, length, ◌==◌, Bool-cases, length-append,
}
use cachelib_archive.Stdio.{File, write_at}
use cachelib_archive.Stdio.Ints.{le_bytes, le_value, length-le_bytes, le_value-le_bytes}
use cachelib_archive.Stdio.Frame.{
  write_at-frame, write_at-same, size-le-write_at, size-write_at_inside, size-write_at_end,
}
use cachelib_archive.Tmdb.Layout.{key_area, key_record}
use cachelib_archive.Tmdb.Handle.{db_hash}
use cachelib_archive.Tmdb.Find.{bucket_pos}
use cachelib_archive.Tmdb.Records.{IsKey, head_len, length-key_record}
use cachelib_archive.Tmdb.Slot.{IsRecord, IsRecord-append, IsRecord-frame, one_key}
use cachelib_archive.Tmdb.Chain.{Entry, Chain, Rising, last_ptr, last_key}
use cachelib_archive.Tmdb.Link.{
  Spared, Chain-frame, Spared-outside, link_spares, last-IsRecord, Rising-append, Chain-append,
}
use cachelib_archive.Tmdb.Map.{buckets, bucket, IsIndex, extend}

abbrev Hashed : ℕ → List Entry → Type 0
Hashed b = All (λ e. db_hash buckets e.key ≡ b)

last-Hashed :
    (b : ℕ) (e : Entry) (es : List Entry) → Hashed b (e ∷ es) → db_hash buckets (last_key e es) ≡ b
last-Hashed b e [] h = h.0
last-Hashed b e (e' ∷ es) h = last-Hashed b e' es h.1

-- The chain of another bucket has no record where this one ends.
Spared-link :
    {g : File} {l : ℕ} {j : List ℕ} {d m : ℕ} (b c p q : ℕ) (es : List Entry)
    → Chain g p es
    → IsRecord g l j d m
    → db_hash buckets j ≡ b
    → Hashed c es
    → c ≢ b
    → Spared g (write_at g (l + 80) (le_bytes 8 q)) es
Spared-link b c p q [] ch r hj hs ne = tt
Spared-link b c p q (e ∷ es) (n, at, s, ch) r hj hs ne = (
  link_spares q s r (λ same. ne (sym hs.0 ∙ ap (db_hash buckets) (one_key s r same) ∙ hj)),
  Spared-link b c n q es ch r hj hs.1 ne,
)

last_below :
    {n : ℕ} (e : Entry) (es : List Entry) → All (λ e. e.ptr < n) (e ∷ es) → last_ptr e es < n
last_below e [] h = h.0
last_below e (e' ∷ es) h = last_below e' es h.1

-- Where the offset of a new record is written.
abbrev pub link_pos : ℕ → List Entry → ℕ
link_pos b [] = bucket_pos b
link_pos b (e ∷ es) = last_ptr e es + 80

All-append {ℓ κ} :
    {A : Type ℓ} (P : A → Type κ) (xs : List A) (y : A) → All P xs → P y → All P (xs ++ y ∷ [])
All-append P [] y h p = (p, tt)
All-append P (x ∷ xs) y h p = (h.0, All-append P xs y h.1 p)

pub bucket-outside :
    (f : File) (off : ℕ) (bs : List ℕ) (c : ℕ)
    → c < buckets
    → head_len ≤ f.size
    → (bucket_pos c + 8 ≤ off) ⊎ (off + length bs ≤ bucket_pos c)
    → bucket (write_at f off bs) c ≡ bucket f c
bucket-outside f off bs c h s d =
    ap le_value (write_at-frame f off bs (bucket_pos c) 8 (omega arith) d)

bucket-written :
    (f : File) (b q : ℕ) → q < 2 ^ 64 → bucket (write_at f (bucket_pos b) (le_bytes 8 q)) b ≡ q
bucket-written f b q h =
    ap le_value (rw (length-le_bytes 8 q) at (write_at-same f (bucket_pos b) (le_bytes 8 q)))
    ∙ le_value-le_bytes 8 q h

abbrev pub linked : File → ℕ → List Entry → ℕ → File
linked g b es q = write_at g (link_pos b es) (le_bytes 8 q)

-- The link write, on a file `g` that has the new record behind all others.
module _ (g : File) (b : ℕ) (x : Entry) (in_range : b < buckets) (behind : head_len ≤ x.ptr)
    (fits : x.ptr < 2 ^ 64) (new : IsRecord g x.ptr x.key x.data_ptr 0) where
  size : (es : List Entry) → g.size ≤ (linked g b es x.ptr).size
  size es = size-le-write_at g (link_pos b es) (le_bytes 8 x.ptr)

  -- The chain of the bucket itself, by what it was.
  own-Chain :
      (es : List Entry)
      → Chain g (bucket g b) es
      → Rising 0 es
      → All (λ e. e.ptr < x.ptr) es
      → Chain (linked g b es x.ptr) (bucket (linked g b es x.ptr) b) (es ++ x ∷ [])
  own-Chain [] z r l = (
    0,
    bucket-written g b x.ptr fits,
    IsRecord-frame new _ (size []) (
        write_at-frame g (bucket_pos b) (le_bytes 8 x.ptr) x.ptr 88 new.inside
          (omega (arith, length-le_bytes 8 x.ptr))),
    refl,
  )
  own-Chain (e ∷ es) c r l =
      let (_, _, last) = last-IsRecord (bucket g b) e es c in
      rw
        (bucket-outside g (last_ptr e es + 80) (le_bytes 8 x.ptr) b in_range
          (omega (arith, new.inside)) (omega (arith, last.aligned)))
        (Chain-append 0 (bucket g b) e es x c r new (last_below e es l) fits)

  other-Chain :
      (es cs : List Entry) (c : ℕ)
      → c < buckets
      → c ≢ b
      → Chain g (bucket g b) es
      → Hashed b es
      → Chain g (bucket g c) cs
      → Hashed c cs
      → Chain (linked g b es x.ptr) (bucket (linked g b es x.ptr) c) cs
  other-Chain [] cs c in_c ne own own_h ch h =
      rw
        (bucket-outside g (bucket_pos b) (le_bytes 8 x.ptr) c in_c (omega (arith, new.inside))
          (omega (arith, length-le_bytes 8 x.ptr)))
        (Chain-frame g _ (bucket g c) cs (size [])
          (Spared-outside g (bucket_pos b) (le_bytes 8 x.ptr) (bucket g c) cs ch
            (omega (arith, length-le_bytes 8 x.ptr)))
          ch)
  other-Chain (e ∷ es) cs c in_c ne own own_h ch h =
      let (_, _, last) = last-IsRecord (bucket g b) e es own in
      rw
        (bucket-outside g (last_ptr e es + 80) (le_bytes 8 x.ptr) c in_c (omega (arith, new.inside))
          (omega (arith, last.aligned)))
        (Chain-frame g _ (bucket g c) cs (size (e ∷ es))
          (Spared-link b c (bucket g c) x.ptr cs ch last (last-Hashed b e es own_h) h ne) ch)

below_end : (f : File) (p : ℕ) (es : List Entry) → Chain f p es → All (λ e. e.ptr < f.size) es
below_end f p [] c = tt
below_end f p (e ∷ es) (n, at, r, c) = (omega (arith, r.inside), below_end f n es c)

Rising-add :
    (es : List Entry) (x : Entry)
    → Rising 0 es
    → All (λ e. e.ptr < x.ptr) es
    → 0 < x.ptr
    → Rising 0 (es ++ x ∷ [])
Rising-add [] x r l h = (h, tt)
Rising-add (e ∷ es) x r l h = Rising-append 0 e es x r (last_below e es l)

-- The file with a key record behind all others.
abbrev pub appended : File → List ℕ → List ℕ → ℕ → File
appended f pad key d = write_at f f.size (key_record 0 (key_area pad key) d 0)

abbrev pub entry : ℕ → List ℕ → ℕ → List ℕ → Entry
entry p key d value = record { ptr = p; key = key; data_ptr = d; value = value }

module _ (f : File) (chains : ℕ → List Entry) (pad key : List ℕ) (d : ℕ) (value : List ℕ)
    (ix : IsIndex f chains) (room : length pad ≡ 4) (k : IsKey key) (data_fits : d < 2 ^ 64)
    (fits : f.size < 2 ^ 64) where
  abbrev g : File
  g = appended f pad key d

  abbrev x : Entry
  x = entry f.size key d value

  abbrev home : ℕ
  home = db_hash buckets key

  g_size : g.size ≡ f.size + 88
  g_size = omega (
    arith,
    size-write_at_end f (key_record 0 (key_area pad key) d 0),
    length-key_record pad key room k 0 d 0,
  )

  new : IsRecord g f.size key d 0
  new = IsRecord-append f pad key d ix.records ix.size room k data_fits

  kept-Chain : (c : ℕ) → c < buckets → Chain g (bucket g c) (chains c)
  kept-Chain c h =
      rw
        (bucket-outside f f.size (key_record 0 (key_area pad key) d 0) c h (omega (arith, ix.size))
          (inl (omega (arith, ix.size))))
        (Chain-frame f g (bucket f c) (chains c)
          (size-le-write_at f f.size (key_record 0 (key_area pad key) d 0))
          (Spared-outside f f.size (key_record 0 (key_area pad key) d 0) (bucket f c) (chains c)
            (ix.chain c h) (inr (omega arith)))
          (ix.chain c h))

  All-below : (c : ℕ) → c < buckets → All (λ e. e.ptr < f.size) (chains c)
  All-below c h = below_end f (bucket f c) (chains c) (ix.chain c h)

  extend-Chain :
      home < buckets
      → (c : ℕ) → c < buckets
      → Chain
          (linked g home (chains home) f.size)
          (bucket (linked g home (chains home) f.size) c)
          (extend chains home x c)
  extend-Chain hb c h = elim (Bool-cases (c == home)) [
    | inl same ↦
        let e : c ≡ home = ground arith in
        rw (same, e)
          (own-Chain g home x hb (omega (arith, ix.size)) fits new (chains home)
            (kept-Chain home hb) (ix.rising home) (All-below home hb))
    | inr differs ↦ rw differs (
        other-Chain g home x hb (omega (arith, ix.size)) fits new (chains home) (chains c) c h
          (ground arith) (kept-Chain home hb) (ix.hashed home) (kept-Chain c h) (ix.hashed c))
  ]

  linked_inside :
      (hb : home < buckets) (es : List Entry)
      → Chain g (bucket g home) es
      → (linked g home es f.size).size ≡ f.size + 88
  linked_inside hb [] c =
      size-write_at_inside g (bucket_pos home) (le_bytes 8 f.size)
        (omega (arith, g_size, ix.size, length-le_bytes 8 f.size))
      ∙ g_size
  linked_inside hb (e ∷ es) c =
      let (_, _, last) = last-IsRecord (bucket g home) e es c in
      size-write_at_inside g (last_ptr e es + 80) (le_bytes 8 f.size)
        (omega (arith, last.inside, length-le_bytes 8 f.size))
      ∙ g_size

  extend-Rising : home < buckets → (c : ℕ) → Rising 0 (extend chains home x c)
  extend-Rising hb c = elim (Bool-cases (c == home)) [
    | inl same ↦
        let e : c ≡ home = ground arith in
        rw (same, e)
          (Rising-add (chains home) x (ix.rising home) (All-below home hb) (omega (arith, ix.size)))
    | inr differs ↦ rw differs (ix.rising c)
  ]

  extend_short : (c : ℕ) → length (extend chains home x c) ≤ suc ix.records
  extend_short c = elim (Bool-cases (c == home)) [
    | inl same ↦ rw same (omega (arith, ix.short c, length-append (chains c) (x ∷ [])))
    | inr differs ↦ rw differs (omega (arith, ix.short c))
  ]

  extend-Hashed : (c : ℕ) → Hashed c (extend chains home x c)
  extend-Hashed c = elim (Bool-cases (c == home)) [
    | inl same ↦ rw same (All-append _ (chains c) x (ix.hashed c) (ground arith))
    | inr differs ↦ rw differs (ix.hashed c)
  ]

  -- The new key's chain has one more entry, and the index is well formed as before.
  pub IsIndex-append :
      home < buckets → IsIndex (linked g home (chains home) f.size) (extend chains home x)
  IsIndex-append hb = record {
    records = suc ix.records;
    size = linked_inside hb (chains home) (kept-Chain home hb) ∙ omega (arith, ix.size);
    chain = extend-Chain hb;
    rising = extend-Rising hb;
    short = extend_short;
    hashed = extend-Hashed;
  }

  -- The index file grows by one record.
  pub linked-size : home < buckets → (linked g home (chains home) f.size).size ≡ f.size + 88
  linked-size hb = linked_inside hb (chains home) (kept-Chain home hb)
