-- ===== src/Tmdb/Link.antt =====
-- The two writes of a new key record, seen from the chains: the record goes behind all others, and
-- its offset into a bucket or into the last record of a chain.
use cachelib_archive.Base.{
  ℕ, ◌+◌, ◌^◌, ◌≤◌, ◌<◌, ◌≡◌, ◌≢◌, refl, ◌⊎◌, List, [], ◌∷◌, ◌++◌, arith, length,
}
use cachelib_archive.Stdio.{File, bytes_at, write_at}
use cachelib_archive.Stdio.Ints.{le_bytes, length-le_bytes}
use cachelib_archive.Stdio.Frame.{write_at-frame, size-le-write_at}
use cachelib_archive.Tmdb.Records.{head_len}
use cachelib_archive.Tmdb.Slot.{IsRecord, IsRecord-frame, IsRecord-link, apart}
use cachelib_archive.Tmdb.Chain.{Entry, Chain, Rising, last_ptr, last_key}

-- A write that spares each record of a chain spares the chain.
abbrev pub Spared : File → File → List Entry → Type 0
Spared f g [] = Unit {0}
Spared f g (e ∷ es) = (bytes_at g.byte e.ptr 88 ≡ bytes_at f.byte e.ptr 88) × Spared f g es

pub Chain-frame :
    (f g : File) (p : ℕ) (es : List Entry)
    → f.size ≤ g.size
    → Spared f g es
    → Chain f p es
    → Chain g p es
Chain-frame f g p [] h s c = c
Chain-frame f g p (e ∷ es) h s (n, at, r, c) =
    (n, at, IsRecord-frame r g h s.0, Chain-frame f g n es h s.1 c)

-- A write before all records, or behind the end of the file.
pub Spared-outside :
    (f : File) (off : ℕ) (bs : List ℕ) (p : ℕ) (es : List Entry)
    → Chain f p es
    → (off + length bs ≤ head_len) ⊎ (f.size ≤ off)
    → Spared f (write_at f off bs) es
Spared-outside f off bs p [] c h = tt
Spared-outside f off bs p (e ∷ es) (n, at, r, c) h =
    (write_at-frame f off bs e.ptr 88 r.inside (omega arith), Spared-outside f off bs n es c h)

-- The write of a pointer into the record at `l` spares every other record.
pub link_spares :
    {f : File} {p l : ℕ} {k j : List ℕ} {d e n m : ℕ} (q : ℕ)
    → IsRecord f p k d n
    → IsRecord f l j e m
    → p ≢ l
    → bytes_at (write_at f (l + 80) (le_bytes 8 q)).byte p 88 ≡ bytes_at f.byte p 88
link_spares {f} {p} {l} q r s h =
    write_at-frame f (l + 80) (le_bytes 8 q) p 88 r.inside
      (omega (arith, length-le_bytes 8 q, apart r s h))

-- The last record of a chain.
pub last-IsRecord :
    {f : File} (p : ℕ) (e : Entry) (es : List Entry)
    → Chain f p (e ∷ es)
    → (d : ℕ) × (n : ℕ) × IsRecord f (last_ptr e es) (last_key e es) d n
last-IsRecord p e [] (n, at, r, c) = (e.data_ptr, n, r)
last-IsRecord p e (e' ∷ es) (n, at, r, c) = last-IsRecord n e' es c

pub last_rises : (n : ℕ) (e : Entry) (es : List Entry) → Rising n (e ∷ es) → n < last_ptr e es
last_rises n e [] h = h.0
last_rises n e (e' ∷ es) h = omega (arith, last_rises e.ptr e' es h.1)

pub Rising-append :
    (n : ℕ) (e : Entry) (es : List Entry) (x : Entry)
    → Rising n (e ∷ es)
    → last_ptr e es < x.ptr
    → Rising n ((e ∷ es) ++ x ∷ [])
Rising-append n e [] x h l = (h.0, (l, tt))
Rising-append n e (e' ∷ es) x h l = (h.0, Rising-append e.ptr e' es x h.1 l)

-- The new record becomes the chain's last entry.
pub Chain-append :
    {f : File} (n p : ℕ) (e : Entry) (es : List Entry) (x : Entry)
    → Chain f p (e ∷ es)
    → Rising n (e ∷ es)
    → IsRecord f x.ptr x.key x.data_ptr 0
    → last_ptr e es < x.ptr
    → x.ptr < 2 ^ 64
    → Chain (write_at f (last_ptr e es + 80) (le_bytes 8 x.ptr)) p ((e ∷ es) ++ x ∷ [])
Chain-append {f} n p e [] x (m, at, r, c) rise s l fits = (
  x.ptr,
  at,
  IsRecord-link r x.ptr fits,
  (
    0,
    refl,
    IsRecord-frame s _ (size-le-write_at f _ _) (link_spares x.ptr s r (omega arith)),
    refl,
  ),
)
Chain-append {f} n p e (e' ∷ es) x (m, at, r, c) rise s l fits =
    let (_, _, last) = last-IsRecord m e' es c in
    (
      m,
      at,
      IsRecord-frame r _ (size-le-write_at f _ _)
          (link_spares x.ptr r last (omega (arith, last_rises e.ptr e' es rise.1))),
      Chain-append e.ptr m e' es x c rise.1 s l fits,
    )
