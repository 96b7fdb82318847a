-- ===== src/Tmdb/Map/Replaced/Bytes.antt =====
-- The replacement of a value writes eight bytes at byte 68 of the key record, four before the
-- pointer to the data: the bytes of the record behind it.
use cachelib_archive.Base.{
  ℕ, suc, ◌+◌, ◌-◌, ◌/◌, ◌^◌, ◌<◌, ◌≡◌, refl, sym, ap, ap₂, ◌∙◌, inl, inr, List, [], ◌∷◌, ◌++◌,
  arith, length, take, drop, set, replicate, append_assoc, length-append, length-replicate,
}
use cachelib_archive.Stdio.{File, bytes_at, write_at}
use cachelib_archive.Stdio.Ints.{le_bytes, length-le_bytes}
use cachelib_archive.Stdio.Frame.{
  bytes_at-split, length-bytes_at, write_at-frame, write_at-same, size-le-write_at,
}
use cachelib_archive.CString.Laws.{take-append, drop-append}
use cachelib_archive.Tmdb.Layout.{key_area, key_record}
use cachelib_archive.Tmdb.Slot.{IsRecord}

-- A number below 2^32 in eight bytes: four of it, and four zeros.
le_bytes_8 : (d : ℕ) → d < 2 ^ 32 → le_bytes 8 d ≡ le_bytes 4 d ++ le_bytes 4 0
unfolding le_bytes
le_bytes_8 d h = let e : d / 256 / 256 / 256 / 256 ≡ 0 = omega arith in rw e refl

set_same_zero : (key r : List ℕ) → set (key ++ 0 ∷ r) (length key) 0 ≡ key ++ 0 ∷ r
set_same_zero [] r = refl
set_same_zero (c ∷ key) r = ap (◌∷◌ c) (set_same_zero key r)

-- The key with its zeros.
abbrev filled : List ℕ → List ℕ
filled key = key ++ replicate (64 - length key) 0

-- Behind a key of fewer than 64 bytes the padding stays what it is.
key_area-short : (pad key : List ℕ) → length key < 64 → key_area pad key ≡ filled key ++ pad
unfolding key_area
key_area-short pad key h =
    let e : 64 - length key ≡ suc (63 - length key) = omega arith in
    rw e (
      set_same_zero key (replicate (63 - length key) 0 ++ pad)
      ∙ sym (append_assoc key (0 ∷ replicate (63 - length key) 0) pad))

-- A record around the eight bytes at 68.
abbrev around : List ℕ → List ℕ → ℕ → List ℕ
around key eight n = (le_bytes 4 0 ++ filled key) ++ (eight ++ (le_bytes 4 0 ++ le_bytes 8 n))

key_record-around :
    (pad key : List ℕ) (d n : ℕ)
    → length key < 64
    → d < 2 ^ 32
    → key_record 0 (key_area pad key) d n ≡ around key (pad ++ le_bytes 4 d) n
unfolding key_record
key_record-around pad key d n short h =
    rw (key_area-short pad key short, le_bytes_8 d h) (simp append_assoc)

module _ {f : File} {p : ℕ} {key : List ℕ} {d n : ℕ} (r : IsRecord f p key d n)
    (short : length key < 64) (low : d < 2 ^ 32) where
  length-front : length (le_bytes 4 0 ++ filled key) ≡ 68
  length-front = omega (
    arith,
    length-append (le_bytes 4 0) (filled key),
    length-le_bytes 4 0,
    length-append key (replicate (64 - length key) 0),
    length-replicate {0} {A = ℕ} (64 - length key) 0,
  )

  parts :
      bytes_at f.byte p 68 ++ (bytes_at f.byte (p + 68) 8 ++ bytes_at f.byte (p + 68 + 8) 12)
      ≡ around key (r.pad ++ le_bytes 4 d) n
  parts =
      sym (
        bytes_at-split 68 20 p f.byte
        ∙ ap (◌++◌ (bytes_at f.byte p 68)) (bytes_at-split 8 12 (p + 68) f.byte))
      ∙ r.bytes
      ∙ key_record-around r.pad key d n short low

  front : bytes_at f.byte p 68 ≡ le_bytes 4 0 ++ filled key
  front =
      sym (
        take-append 68 (bytes_at f.byte p 68)
          (bytes_at f.byte (p + 68) 8 ++ bytes_at f.byte (p + 68 + 8) 12)
          (length-bytes_at 68 p f.byte))
      ∙ ap (take 68) parts
      ∙ take-append 68 (le_bytes 4 0 ++ filled key)
          ((r.pad ++ le_bytes 4 d) ++ (le_bytes 4 0 ++ le_bytes 8 n)) length-front

  behind :
      bytes_at f.byte (p + 68) 8 ++ bytes_at f.byte (p + 68 + 8) 12
      ≡ (r.pad ++ le_bytes 4 d) ++ (le_bytes 4 0 ++ le_bytes 8 n)
  behind =
      sym (drop-append 68 (bytes_at f.byte p 68) _ (length-bytes_at 68 p f.byte))
      ∙ ap (drop 68) parts
      ∙ drop-append 68 (le_bytes 4 0 ++ filled key) _ length-front

  back : bytes_at f.byte (p + 68 + 8) 12 ≡ le_bytes 4 0 ++ le_bytes 8 n
  back =
      sym (drop-append 8 (bytes_at f.byte (p + 68) 8) _ (length-bytes_at 8 (p + 68) f.byte))
      ∙ ap (drop 8) behind
      ∙ drop-append 8 (r.pad ++ le_bytes 4 d) _
          (omega (arith, r.room, length-append r.pad (le_bytes 4 d), length-le_bytes 4 d))

  -- The record's pointer to the data becomes 0, and the offset its padding.
  pub IsRecord-replaced :
      (q : ℕ) → q < 2 ^ 32 → IsRecord (write_at f (p + 68) (le_bytes 8 q)) p key 0 n
  IsRecord-replaced q fits = record {
    pad = le_bytes 4 q;
    room = length-le_bytes 4 q;
    slot = r.slot;
    aligned = r.aligned;
    inside = omega (arith, r.inside, size-le-write_at f (p + 68) (le_bytes 8 q));
    is_key = r.is_key;
    data_fits = omega arith;
    next_fits = r.next_fits;
    bytes =
        let g : File = write_at f (p + 68) (le_bytes 8 q) in
        bytes_at-split 68 20 p g.byte
        ∙ ap (◌++◌ (bytes_at g.byte p 68)) (bytes_at-split 8 12 (p + 68) g.byte)
        ∙ ap₂ ◌++◌
            (write_at-frame f (p + 68) (le_bytes 8 q) p 68 (omega (arith, r.inside))
                (inl (omega arith))
              ∙ front)
            (ap₂ ◌++◌
              ((rw (length-le_bytes 8 q) at (write_at-same f (p + 68) (le_bytes 8 q)))
                ∙ le_bytes_8 q fits)
              (write_at-frame f (p + 68) (le_bytes 8 q) (p + 68 + 8) 12 (omega (arith, r.inside))
                  (inr (omega (arith, length-le_bytes 8 q)))
                ∙ back))
        ∙ sym (key_record-around (le_bytes 4 q) key 0 n short (omega arith));
  }
