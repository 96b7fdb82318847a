-- ===== src/Tmdb/Chain.antt =====
-- The chain of a bucket as a list of entries, the walk along it, and what a write does to it.
use cachelib_archive.Base.{
  ℕ, zero, suc, ◌+◌, ◌≤◌, ◌<◌, ◌≡◌, refl, ◌∙◌, inl, inr, true, false, Option, none, some, List, [],
  ◌∷◌, arith, length, ◌==◌, if◌then◌else◌, Bool-cases,
}
use cachelib_archive.Stdio.{File, Stream, bytes_at, fread, fseek_set}
use cachelib_archive.CString.{str_eq}
use cachelib_archive.Tmdb.Layout.{trimmed_record}
use cachelib_archive.Tmdb.Handle.{returns}
use cachelib_archive.Tmdb.Find.{Walk, walk, find_loop}
use cachelib_archive.Tmdb.Slot.{IsRecord, read_key, read_data_ptr, read_next_ptr}

-- A stored key: its record, and the data record that this points to.
pub record Entry : Type 0 where
  pub ptr : ℕ
  pub key : List ℕ
  pub data_ptr : ℕ
  pub value : List ℕ

abbrev pub Chain : File → ℕ → List Entry → Type 0
Chain f p [] = p ≡ 0
Chain f p (e ∷ es) = (n : ℕ) × (p ≡ e.ptr) × IsRecord f e.ptr e.key e.data_ptr n × Chain f n es

-- Pointers rise along a chain: records are only ever appended.
abbrev pub Rising : ℕ → List Entry → Type 0
Rising n [] = Unit {0}
Rising n (e ∷ es) = (n < e.ptr) × Rising e.ptr es

unfoldable pub find_entry : List ℕ → List Entry → Option Entry
find_entry key [] = none
find_entry key (e ∷ es) = if str_eq e.key key then some e else find_entry key es

abbrev pub last_ptr : Entry → List Entry → ℕ
last_ptr e [] = e.ptr
last_ptr e (e' ∷ es) = last_ptr e' es

abbrev pub last_key : Entry → List Entry → List ℕ
last_key e [] = e.key
last_key e (e' ∷ es) = last_key e' es

-- What a walk reports, given the entry that the chain has for the key.
abbrev pub Walked : File → Option Entry → ℕ → Walk → Type 0
Walked f none last w = (w.found ≡ false) × (w.preidx ≡ last + 88) × (w.idx.file ≡ f)
Walked f (some e) last w =
    (w.found ≡ true) × (w.ptr ≡ e.ptr) × (w.data_ptr ≡ e.data_ptr) × (w.idx.file ≡ f)

pub fread-inside :
    (s : Stream) (p n : ℕ)
    → p + n ≤ s.size
    → fread (fseek_set s p) n ≡ some (bytes_at s.byte p n, record s { pos = p + n })
unfolding fread
fread-inside s p n h = ground arith

module _ (fuel : ℕ) (s : Stream) (key : List ℕ) where
  abbrev rec_at : ℕ → List ℕ
  rec_at p = trimmed_record (bytes_at s.byte p 88)

  abbrev behind : ℕ → Stream
  behind p = record s { pos = p + 88 }

  -- One round, at a record.
  find_loop_step :
      (p : ℕ) {k : List ℕ} {d n : ℕ}
      → IsRecord s.file p k d n
      → find_loop (suc fuel) s key p ≡ (
          if str_eq k key
          then returns (walk true p (rec_at p) (behind p))
          else if n == 0
          then returns (walk false p (rec_at p) (behind p))
          else find_loop fuel (behind p) key n)
  unfolding find_loop
  find_loop_step p r = rw (fread-inside s p 88 r.inside, find_loop, read_key r, read_next_ptr r)

-- What the lemma below says of a walk.
abbrev Walks : ℕ → Stream → List ℕ → Entry → List Entry → Type 0
Walks fuel s key e es =
    (w : Walk) × (find_loop fuel s key e.ptr ≡ returns w)
    × Walked s.file (find_entry key (e ∷ es)) (last_ptr e es) w

Walks-hit :
    (fuel : ℕ) (s : Stream) (key : List ℕ) (e : Entry) (es : List Entry) {n : ℕ}
    → IsRecord s.file e.ptr e.key e.data_ptr n
    → str_eq e.key key ≡ true
    → Walks (suc fuel) s key e es
unfolding find_entry
Walks-hit fuel s key e es r hit = (
  walk true e.ptr (rec_at fuel s key e.ptr) (behind fuel s key e.ptr),
  find_loop_step fuel s key e.ptr r ∙ (rw hit),
  rw hit (refl, refl, read_data_ptr r, refl),
)

-- The loop ends within as many rounds as the chain has entries, and finds the entry or the end.
pub find_loop-Walked :
    (fuel : ℕ) (s : Stream) (key : List ℕ) (e : Entry) (es : List Entry)
    → Chain s.file e.ptr (e ∷ es)
    → length es < fuel
    → Walks fuel s key e es
unfolding find_entry
find_loop-Walked zero s key e es c h = elim h [ ]
find_loop-Walked (suc fuel) s key e [] (n, at, r, end) h = elim (Bool-cases (str_eq e.key key)) [
  | inl hit ↦ Walks-hit fuel s key e [] r hit
  | inr miss ↦ (
    walk false e.ptr (rec_at fuel s key e.ptr) (behind fuel s key e.ptr),
    find_loop_step fuel s key e.ptr r ∙ (rw (miss, end)),
    rw miss (refl, refl, refl),
  )
]
find_loop-Walked (suc fuel) s key e (e' ∷ es) (n, at, r, (n', at', r', c)) h =
    elim (Bool-cases (str_eq e.key key)) [
      | inl hit ↦ Walks-hit fuel s key e (e' ∷ es) r hit
      | inr miss ↦
          let (w, run, is) =
            find_loop-Walked fuel (behind fuel s key e.ptr) key e' es (n', refl, r', c)
              (omega arith) in
          let go_on : (n == 0) ≡ false = ground arith in
          (w, find_loop_step fuel s key e.ptr r ∙ (rw (miss, go_on, at') run), rw miss is)
    ]
