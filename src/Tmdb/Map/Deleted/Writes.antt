-- ===== src/Tmdb/Map/Deleted/Writes.antt =====
-- The two writes of `_db_delete` in the index file, and what they spare.
use cachelib_archive.Base.{
  ℕ, ◌+◌, ◌*◌, ◌≤◌, ◌<◌, ◌≡◌, sym, ap, ◌⊎◌, ◌∙◌, inl, inr, some, List, arith, length, drop, take,
}
use cachelib_archive.Stdio.{File, Stream, bytes_at, fseek_set, fseek_cur, fread, fwrite, write_at}
use cachelib_archive.Stdio.Ints.{le_bytes, le_value, length-le_bytes}
use cachelib_archive.Stdio.Frame.{
  bytes_at-split, length-bytes_at, write_at-frame, size-write_at_inside, size-le-write_at,
}
use cachelib_archive.CString.{cstr, rtrim}
use cachelib_archive.CString.Laws.{drop-append, drop-set_lt}
use cachelib_archive.Tmdb.Layout.{trimmed_key, trimmed_record, data_ptr_of}
use cachelib_archive.Tmdb.Find.{bucket_pos}
use cachelib_archive.Tmdb.Records.{IsKey, head_len}
use cachelib_archive.Tmdb.Chain.{fread-inside}
use cachelib_archive.Tmdb.Map.{buckets, bucket}
use cachelib_archive.Tmdb.Map.Deleted.Hit.{Leads}

-- The two writes of a deletion, in the index file.
abbrev pub flagged : File → ℕ → File
flagged f p = write_at f p (le_bytes 4 1)

module _ (f : File) (b p : ℕ) (low : List ℕ) (len : length low ≡ 4) (p_at : head_len ≤ p)
    (inside : p + 88 ≤ f.size) (low_b : 0 < b) (high_b : b < buckets) where
  abbrev pub unlinked : File
  unlinked = write_at (flagged f p) (256 + b * 4) low

  flagged-size : (flagged f p).size ≡ f.size
  flagged-size = size-write_at_inside f p (le_bytes 4 1) (omega (arith, length-le_bytes 4 1))

  unlinked-size : unlinked.size ≡ f.size
  unlinked-size =
      size-write_at_inside (flagged f p) (256 + b * 4) low (omega (arith, len, flagged-size))
      ∙ flagged-size

  -- What the two writes spare.
  unlinked-frame :
      (a n : ℕ)
      → a + n ≤ f.size
      → (a + n ≤ p) ⊎ (p + 4 ≤ a)
      → (a + n ≤ 256 + b * 4) ⊎ (260 + b * 4 ≤ a)
      → bytes_at unlinked.byte a n ≡ bytes_at f.byte a n
  unlinked-frame a n h u v =
      write_at-frame (flagged f p) (256 + b * 4) low a n (omega (arith, flagged-size))
        (ground (arith, len))
      ∙ write_at-frame f p (le_bytes 4 1) a n h (ground (arith, length-le_bytes 4 1))

  same_bucket : bucket unlinked b ≡ bucket f b
  same_bucket =
      ap le_value
        (unlinked-frame (bucket_pos b) 8 (omega arith) (inl (omega arith)) (inr (omega arith)))

  -- The record behind its flag.
  same_rest : drop 4 (bytes_at unlinked.byte p 88) ≡ drop 4 (bytes_at f.byte p 88)
  same_rest =
      behind unlinked
      ∙ unlinked-frame (p + 4) 84 (omega arith) (inr (omega arith)) (inr (omega arith))
      ∙ sym (behind f)
    where
      behind : (g : File) → drop 4 (bytes_at g.byte p 88) ≡ bytes_at g.byte (p + 4) 84
      behind g =
          ap (drop 4) (bytes_at-split 4 84 p g.byte)
          ∙ drop-append 4 (bytes_at g.byte p 4) _ (length-bytes_at 4 p g.byte)

  -- The search finds what it found before.
  pub Leads-unlinked :
      (key : List ℕ) (d : ℕ) → IsKey key → Leads f b key p d → Leads unlinked b key p d
  unfolding trimmed_key trimmed_record data_ptr_of
  Leads-unlinked key d k l = record {
    head = omega (arith, unlinked-size, l.head);
    at = same_bucket ∙ l.at;
    some_ptr = l.some_ptr;
    inside = omega (arith, unlinked-size);
    key_is = key';
    data_is =
        ap (λ xs. le_value (take 8 xs))
          (drop-set_lt 72 (4 + length (trimmed_key (bytes_at unlinked.byte p 88)))
              (bytes_at unlinked.byte p 88) 0 (omega (arith, ap length key', k.fits))
            ∙ ap (drop 68) same_rest
            ∙ sym (
                drop-set_lt 72 (4 + length (trimmed_key (bytes_at f.byte p 88)))
                  (bytes_at f.byte p 88) 0 (omega (arith, ap length l.key_is, k.fits))))
        ∙ l.data_is;
  }
    where
      key' : trimmed_key (bytes_at unlinked.byte p 88) ≡ key
      key' = ap (λ xs. rtrim (cstr xs)) same_rest ∙ l.key_is

-- The stream when the flag has been written.
unfoldable pub marked : File → ℕ → Stream
marked f p = fseek_cur (fwrite (fseek_set (record { file = f; pos = 0 }) p) (le_bytes 4 1)) 68

pub marked-reads :
    (f : File) (p : ℕ)
    → p + 88 ≤ f.size
    → fread (marked f p) 4
      ≡ some (
        bytes_at (flagged f p).byte (marked f p).pos 4,
        record { file = flagged f p; pos = (marked f p).pos + 4 },
      )
unfolding marked fwrite
marked-reads f p inside =
    fread-inside (marked f p) (marked f p).pos 4
      (omega (arith, length-le_bytes 4 1, size-le-write_at f p (le_bytes 4 1)))
