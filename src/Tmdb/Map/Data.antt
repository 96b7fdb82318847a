-- ===== src/Tmdb/Map/Data.antt =====
-- The data file after a new value: the value can be read back, and so can all others.
use cachelib_archive.Base.{
  All, ℕ, ◌+◌, ◌-◌, ◌≤◌, ◌≡◌, refl, ◌∙◌, inl, inr, List, [], ◌∷◌, ◌++◌, arith, length, ltb, ◌==◌,
  Bool-cases,
}
use cachelib_archive.Stdio.{File, write_at, fwrite}
use cachelib_archive.Stdio.Ints.{le_bytes, length-le_bytes}
use cachelib_archive.Stdio.Frame.{
  write_at-frame, write_at-same, size-le-write_at, size-write_at_inside, size-write_at_next,
}
use cachelib_archive.CString.Laws.{IsText}
use cachelib_archive.Tmdb.Handle.{Tdb}
use cachelib_archive.Tmdb.Store.{write_data_record, save_data, record_pos}
use cachelib_archive.Tmdb.Chain.{Entry}
use cachelib_archive.Tmdb.Map.{IsData, IsStore, extend}

-- A record that lies before the last eight bytes of the file survives a write over these or behind.
IsData-frame :
    {f : File} {d : ℕ} {v : List ℕ} (off : ℕ) (bs : List ℕ)
    → IsData f d v
    → f.size ≤ off + 8
    → IsData (write_at f off bs) d v
IsData-frame {f} {d} {v} off bs i h = record {
  len =
      write_at-frame f off bs (d + 4) 4 (omega (arith, i.inside)) (omega (arith, i.inside)) ∙ i.len;
  bytes =
      write_at-frame f off bs (d + 8) (length v) (omega (arith, i.inside)) (omega (arith, i.inside))
      ∙ i.bytes;
  inside = omega (arith, i.inside, size-le-write_at f off bs);
  text = i.text;
  fits = i.fits;
}

-- The four writes at the end of the file.
module _ (f : File) (p : ℕ) (v : List ℕ) where
  abbrev w1 : File
  w1 = write_at f p (le_bytes 4 0)

  abbrev w2 : File
  w2 = write_at w1 (p + 4) (le_bytes 4 (length v))

  abbrev w3 : File
  w3 = write_at w2 (p + 4 + 4) v

  abbrev pub w4 : File
  w4 = write_at w3 (p + 4 + 4 + length v) (le_bytes 8 0)

module _ (f : File) (p : ℕ) (v : List ℕ) (at_end : f.size ≡ p) where
  size1 : (w1 f p v).size ≡ p + 4
  size1 = omega (arith, size-write_at_next f p (le_bytes 4 0) (omega arith), length-le_bytes 4 0)

  size2 : (w2 f p v).size ≡ p + 4 + 4
  size2 = omega (
    arith,
    size-write_at_next (w1 f p v) (p + 4) (le_bytes 4 (length v)) (omega (arith, size1)),
    length-le_bytes 4 (length v),
  )

  size3 : (w3 f p v).size ≡ p + 4 + 4 + length v
  size3 = size-write_at_next (w2 f p v) (p + 4 + 4) v (omega (arith, size2))

  size4 : (w4 f p v).size ≡ p + 4 + 4 + length v + 8
  size4 = omega (
    arith,
    size-write_at_next (w3 f p v) (p + 4 + 4 + length v) (le_bytes 8 0) (omega (arith, size3)),
    length-le_bytes 8 0,
  )

  IsData-kept : {d : ℕ} {u : List ℕ} → IsData f d u → IsData (w4 f p v) d u
  IsData-kept i =
      IsData-frame (p + 4 + 4 + length v) (le_bytes 8 0)
        (IsData-frame (p + 4 + 4) v
          (IsData-frame (p + 4) (le_bytes 4 (length v))
            (IsData-frame p (le_bytes 4 0) i (omega arith)) (omega (arith, size1)))
          (omega (arith, size2)))
        (omega (arith, size3))

  IsData-new : IsText v → length v ≤ 4194304 → IsData (w4 f p v) p v
  IsData-new t h = record {
    len =
        write_at-frame (w3 f p v) (p + 4 + 4 + length v) (le_bytes 8 0) (p + 4) 4
          (omega (arith, size3)) (inl (omega arith))
        ∙ write_at-frame (w2 f p v) (p + 4 + 4) v (p + 4) 4 (omega (arith, size2))
            (inl (omega arith))
        ∙ (rw (length-le_bytes 4 (length v)) at
            (write_at-same (w1 f p v) (p + 4) (le_bytes 4 (length v))));
    bytes =
        let e : p + 8 ≡ p + 4 + 4 = omega arith in
        rw e (
          write_at-frame (w3 f p v) (p + 4 + 4 + length v) (le_bytes 8 0) (p + 4 + 4) (length v)
            (omega (arith, size3)) (inl (omega arith))
          ∙ write_at-same (w2 f p v) (p + 4 + 4) v);
    inside = omega (arith, size4);
    text = t;
    fits = h;
  }

-- What `_write_data_record` does to the file.
write_data_record-file :
    (f : File) (p : ℕ) (v : List ℕ)
    → (write_data_record (record { file = f; pos = p }) v).file ≡ w4 f p v
unfolding write_data_record fwrite
write_data_record-file f p v = rw (length-le_bytes 4 0, length-le_bytes 4 (length v))

-- A data file in which the value stands at `p`, with all that stood there before.
abbrev pub Gained : File → ℕ → List ℕ → File → Type 0
Gained f p v g =
    IsData g p v × (f.size ≤ g.size) × ((d : ℕ) (u : List ℕ) → IsData f d u → IsData g d u)

-- The two ways of `_db_store` to the end of the data file.
save_first :
    (f : File) (v : List ℕ) → IsText v → length v ≤ 4194304 → Gained f f.size v (w4 f f.size v)
save_first f v t h = (
  IsData-new f f.size v refl t h,
  omega (arith, size4 f f.size v refl),
  λ d u i. IsData-kept f f.size v refl i,
)

save_linked :
    (f : File) (v : List ℕ)
    → 8 ≤ f.size
    → IsText v
    → length v ≤ 4194304
    → Gained f f.size v (w4 (write_at f (f.size - 8) (le_bytes 8 f.size)) f.size v)
save_linked f v h8 t h = (
  IsData-new f' f.size v same t h,
  omega (arith, size4 f' f.size v same),
  λ d u i.
      IsData-kept f' f.size v same (IsData-frame (f.size - 8) (le_bytes 8 f.size) i (omega arith)),
)
  where
    f' : File
    f' = write_at f (f.size - 8) (le_bytes 8 f.size)

    same : f'.size ≡ f.size
    same =
        size-write_at_inside f (f.size - 8) (le_bytes 8 f.size)
          (omega (arith, length-le_bytes 8 f.size))

-- `save_data` touches the data stream alone.
pub save_data-else :
    (db : Tdb) (v : List ℕ) → save_data db v ≡ record db { dat = (save_data db v).dat }
unfolding save_data
save_data-else db v = elim (Bool-cases (ltb (record_pos db) (256 + 24))) [
  | inl first ↦ rw first
  | inr linked ↦ rw linked
]

pub record_pos_lem : (db : Tdb) → record_pos db ≡ db.dat.size
unfolding record_pos
record_pos_lem db = omega arith

-- The value is appended to the data file.
pub save_data-Gained :
    (db : Tdb) (v : List ℕ)
    → 8 ≤ db.dat.size
    → IsText v
    → length v ≤ 4194304
    → Gained db.dat.file db.dat.size v (save_data db v).dat.file
unfolding save_data fwrite
save_data-Gained db v h8 t h = elim (Bool-cases (ltb (record_pos db) (256 + 24))) [
  | inl first ↦
      let e : db.dat.size - 0 ≡ db.dat.size = omega arith in
      rw (first, e, write_data_record-file db.dat.file db.dat.size v) (save_first db.dat.file v t h)
  | inr linked ↦
      let e : db.dat.size - 8 + 8 ≡ db.dat.size = omega arith in
      rw
        (
          linked,
          record_pos_lem db,
          length-le_bytes 8 db.dat.size,
          e,
          write_data_record-file (write_at db.dat.file (db.dat.size - 8) (le_bytes 8 db.dat.size))
              db.dat.size v,
        )
        (save_linked db.dat.file v h8 t h)
]

pub All-map {ℓ κ μ} :
    {A : Type ℓ} (P : A → Type κ) (Q : A → Type μ) (xs : List A)
    → ((a : A) → P a → Q a)
    → All P xs
    → All Q xs
All-map P Q [] f h = tt
All-map P Q (x ∷ xs) f h = (f x h.0, All-map P Q xs f h.1)

pub All-snoc {ℓ κ} :
    {A : Type ℓ} (P : A → Type κ) (xs : List A) (y : A) → All P xs → P y → All P (xs ++ y ∷ [])
All-snoc P [] y h p = (p, tt)
All-snoc P (x ∷ xs) y h p = (h.0, All-snoc P xs y h.1 p)

-- The values of the chains, with the new entry's.
pub IsStore-extend :
    (f g : File) (p : ℕ) (chains : ℕ → List Entry) (b : ℕ) (x : Entry)
    → IsStore f chains
    → Gained f p x.value g
    → x.data_ptr ≡ p
    → IsStore g (extend chains b x)
IsStore-extend f g p chains b x s (new, grown, kept) at_p = record {
  header = omega (arith, s.header);
  origin = kept 0 [] s.origin;
  values = values;
}
  where
    old : (c : ℕ) → All (λ e. IsData g e.data_ptr e.value) (chains c)
    old c = All-map _ _ (chains c) (λ e i. kept e.data_ptr e.value i) (s.values c)

    values : (c : ℕ) → All (λ e. IsData g e.data_ptr e.value) (extend chains b x c)
    values c = elim (Bool-cases (c == b)) [
      | inl same ↦ rw same (All-snoc _ (chains c) x (old c) (rw at_p new))
      | inr differs ↦ rw differs (old c)
    ]
