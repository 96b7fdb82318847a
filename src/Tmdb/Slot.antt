-- ===== src/Tmdb/Slot.antt =====
-- A key record in the index file: what reading it gives, and which writes keep or change it.
use cachelib_archive.Base.{
  ℕ, ◌+◌, ◌*◌, ◌^◌, ◌≤◌, ◌<◌, ◌≡◌, ◌≢◌, sym, ap, ap₂, ◌∙◌, ◌⊎◌, inl, List, ◌++◌, arith, length,
  take, append_assoc,
}
use cachelib_archive.Stdio.{File, bytes_at, write_at}
use cachelib_archive.Stdio.Ints.{le_bytes, length-le_bytes}
use cachelib_archive.Stdio.Frame.{
  bytes_at-split, length-bytes_at, write_at-frame, write_at-same, size-le-write_at,
  size-write_at_end,
}
use cachelib_archive.CString.Laws.{take-append}
use cachelib_archive.Tmdb.Layout.{
  key_area, key_record, trimmed_key, trimmed_record, data_ptr_of, next_ptr_of,
}
use cachelib_archive.Tmdb.Records.{
  IsKey, head_len, length-key_record, trimmed_key-key_record, data_ptr_of-key_record,
  next_ptr_of-key_record, take_80,
}

-- At `p` stands the record of `key`, with the two pointers.
pub record IsRecord (f : File) (p : ℕ) (key : List ℕ) (d n : ℕ) : Type 0 where
  pub pad : List ℕ
  pub room : length pad ≡ 4
  pub slot : ℕ
  pub aligned : p ≡ head_len + 88 * slot
  pub inside : p + 88 ≤ f.size
  pub is_key : IsKey key
  pub data_fits : d < 2 ^ 64
  pub next_fits : n < 2 ^ 64
  pub bytes : bytes_at f.byte p 88 ≡ key_record 0 (key_area pad key) d n

module _ {f : File} {p : ℕ} {key : List ℕ} {d n : ℕ} (r : IsRecord f p key d n) where
  pub read_key : trimmed_key (bytes_at f.byte p 88) ≡ key
  read_key = rw r.bytes (trimmed_key-key_record r.pad key r.room r.is_key 0 d n)

  pub read_data_ptr : data_ptr_of (trimmed_record (bytes_at f.byte p 88)) ≡ d
  read_data_ptr = rw r.bytes (data_ptr_of-key_record r.pad key r.room r.is_key 0 d n r.data_fits)

  pub read_next_ptr : next_ptr_of (trimmed_record (bytes_at f.byte p 88)) ≡ n
  read_next_ptr = rw r.bytes (next_ptr_of-key_record r.pad key r.room r.is_key 0 d n r.next_fits)

  -- A change of the file that spares the record's bytes.
  pub IsRecord-frame :
      (g : File)
      → f.size ≤ g.size
      → bytes_at g.byte p 88 ≡ bytes_at f.byte p 88
      → IsRecord g p key d n
  IsRecord-frame g h e = record {
    pad = r.pad;
    room = r.room;
    slot = r.slot;
    aligned = r.aligned;
    inside = omega arith;
    is_key = r.is_key;
    data_fits = r.data_fits;
    next_fits = r.next_fits;
    bytes = e ∙ r.bytes;
  }

  front : bytes_at f.byte p 80 ≡ le_bytes 4 0 ++ (key_area r.pad key ++ le_bytes 8 d)
  front =
      sym (
        take-append 80 (bytes_at f.byte p 80) (bytes_at f.byte (p + 80) 8)
          (length-bytes_at 80 p f.byte))
      ∙ ap (take 80) (sym (bytes_at-split 80 8 p f.byte) ∙ r.bytes)
      ∙ take_80 r.pad key r.room r.is_key 0 d n

  -- The write of a new pointer over the old one.
  pub IsRecord-link : (q : ℕ) → q < 2 ^ 64 → IsRecord (write_at f (p + 80) (le_bytes 8 q)) p key d q
  unfolding key_record
  IsRecord-link q fits = record {
    pad = r.pad;
    room = r.room;
    slot = r.slot;
    aligned = r.aligned;
    inside = omega (arith, size-le-write_at f (p + 80) (le_bytes 8 q));
    is_key = r.is_key;
    data_fits = r.data_fits;
    next_fits = fits;
    bytes =
        bytes_at-split 80 8 p (write_at f (p + 80) (le_bytes 8 q)).byte
        ∙ ap₂ ◌++◌
            (write_at-frame f (p + 80) (le_bytes 8 q) p 80 (omega arith) (inl (omega arith))
              ∙ front)
            (rw (length-le_bytes 8 q) at (write_at-same f (p + 80) (le_bytes 8 q)))
        ∙ append_assoc (le_bytes 4 0) (key_area r.pad key ++ le_bytes 8 d) (le_bytes 8 q)
        ∙ ap (◌++◌ (le_bytes 4 0))
            (append_assoc (key_area r.pad key) (le_bytes 8 d) (le_bytes 8 q));
  }

-- Two records at different places do not overlap.
pub apart :
    {f g : File} {p q : ℕ} {k l : List ℕ} {d e n m : ℕ}
    → IsRecord f p k d n
    → IsRecord g q l e m
    → p ≢ q
    → (p + 88 ≤ q) ⊎ (q + 88 ≤ p)
apart r s h = omega arith

-- A place holds one key.
pub one_key :
    {f : File} {p q : ℕ} {k l : List ℕ} {d e n m : ℕ}
    → IsRecord f p k d n
    → IsRecord f q l e m
    → p ≡ q
    → k ≡ l
one_key {f} r s h = sym (read_key r) ∙ ap (λ x. trimmed_key (bytes_at f.byte x 88)) h ∙ read_key s

-- A record that is appended to the file.
pub IsRecord-append :
    (f : File) (pad key : List ℕ) (d slot : ℕ)
    → f.size ≡ head_len + 88 * slot
    → length pad ≡ 4
    → IsKey key
    → d < 2 ^ 64
    → IsRecord (write_at f f.size (key_record 0 (key_area pad key) d 0)) f.size key d 0
IsRecord-append f pad key d slot at_end room k fits = record {
  pad = pad;
  room = room;
  slot = slot;
  aligned = at_end;
  inside = omega (arith, size-write_at_end f (key_record 0 (key_area pad key) d 0), len);
  is_key = k;
  data_fits = fits;
  next_fits = omega arith;
  bytes = rw len at (write_at-same f f.size (key_record 0 (key_area pad key) d 0));
}
  where
    len : length (key_record 0 (key_area pad key) d 0) ≡ 88
    len = length-key_record pad key room k 0 d 0
