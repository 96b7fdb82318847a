-- ===== src/Tmdb/Map/Replaced/Index.antt =====
-- The index after the replacement of a value.
use cachelib_archive.Base.{
  All, ℕ, ◌+◌, ◌^◌, ◌<◌, ◌≡◌, ◌≢◌, refl, sym, ap, ◌∙◌, inl, inr, none, some, List, [], ◌∷◌, arith,
  length, ◌==◌, Bool-cases,
}
use cachelib_archive.Stdio.{File, write_at}
use cachelib_archive.Stdio.Ints.{le_bytes, length-le_bytes}
use cachelib_archive.Stdio.Frame.{size-write_at_inside}
use cachelib_archive.CString.{str_eq}
use cachelib_archive.CString.Laws.{str_eq_iff}
use cachelib_archive.Tmdb.Handle.{db_hash, db_hash-lt}
use cachelib_archive.Tmdb.Slot.{IsRecord}
use cachelib_archive.Tmdb.Chain.{Entry, Chain, find_entry}
use cachelib_archive.Tmdb.Map.{IsIndex, buckets, bucket}
use cachelib_archive.Tmdb.Map.Index.{bucket-outside}
use cachelib_archive.Tmdb.Map.Replaced.Chains.{
  emptied, length-emptied, emptied-none, All-emptied, Rising-emptied, found-IsRecord, own-Chain,
  other-Chain,
}

-- No entry of another bucket has the key.
find_entry-hashed :
    (key : List ℕ) (c : ℕ) (es : List Entry)
    → All (λ e. db_hash buckets e.key ≡ c) es
    → db_hash buckets key ≢ c
    → find_entry key es ≡ none
unfolding find_entry
find_entry-hashed key c [] h ne = refl
find_entry-hashed key c (e ∷ es) h ne = elim (Bool-cases (str_eq e.key key)) [
  | inl hit ↦ absurd (ne (ap (db_hash buckets) (sym ((str_eq_iff e.key key).0 hit)) ∙ h.0))
  | inr miss ↦ rw miss (find_entry-hashed key c es h.1 ne)
]

module _ (f : File) (chains : ℕ → List Entry) (key : List ℕ) (x : Entry) (q : ℕ)
    (ix : IsIndex f chains) (found : find_entry key (chains (db_hash buckets key)) ≡ some x)
    (short : length key < 64) (low : x.data_ptr < 2 ^ 32) (fits : q < 2 ^ 32) where
  abbrev home : ℕ
  home = db_hash buckets key

  in_range : home < buckets
  in_range = db_hash-lt buckets key (omega arith)

  abbrev g : File
  g = write_at f (x.ptr + 68) (le_bytes 8 q)

  x-IsRecord : (m : ℕ) × IsRecord f x.ptr x.key x.data_ptr m × (x.key ≡ key) × (0 < x.ptr)
  x-IsRecord =
      found-IsRecord key 0 (bucket f home) (chains home) x (ix.chain home in_range) (ix.rising home)
        found

  g_size : g.size ≡ f.size
  g_size =
      let (_, s, _, _) = x-IsRecord in
      size-write_at_inside f (x.ptr + 68) (le_bytes 8 q)
        (omega (arith, s.inside, length-le_bytes 8 q))

  bucket_kept : (c : ℕ) → c < buckets → bucket g c ≡ bucket f c
  bucket_kept c h =
      let (_, s, _, _) = x-IsRecord in
      bucket-outside f (x.ptr + 68) (le_bytes 8 q) c h (omega (arith, ix.size))
        (inl (omega (arith, s.aligned)))

  Chain-emptied : (c : ℕ) → c < buckets → Chain g (bucket g c) (emptied key (chains c))
  Chain-emptied c h = rw (bucket_kept c h) (elim (Bool-cases (c == home)) [
    | inl same ↦
        let e : c ≡ home = ground arith in
        rw e (
          own-Chain f key x q short low fits 0 (bucket f home) (chains home)
            (ix.chain home in_range) (ix.rising home) found)
    | inr differs ↦
        let (_, s, is, _) = x-IsRecord in
        rw
          (emptied-none key (chains c)
            (find_entry-hashed key c (chains c) (ix.hashed c) (ground arith)))
          (other-Chain f key x q short low fits home c (bucket f c) (chains c) (ix.chain c h) s
            (ap (db_hash buckets) is) (ix.hashed c) (ground arith))
  ])

  pub IsIndex-emptied : IsIndex g (λ c. emptied key (chains c))
  IsIndex-emptied = record {
    records = ix.records;
    size = g_size ∙ ix.size;
    chain = Chain-emptied;
    rising = λ c. Rising-emptied 0 key (chains c) (ix.rising c);
    short = λ c. omega (arith, ix.short c, length-emptied key (chains c));
    hashed = λ c. All-emptied _ key (chains c) (λ e h. h) (ix.hashed c);
  }
