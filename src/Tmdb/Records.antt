-- ===== src/Tmdb/Records.antt =====
-- Key records and data records in a file: what is read back, and which writes leave them alone.
use cachelib_archive.Base.{
  ℕ, ◌+◌, ◌-◌, ◌^◌, ◌≤◌, ◌<◌, ◌≡◌, sym, List, ◌++◌, arith, length, take, drop, replicate,
  length-append, length-set, length-replicate, append_assoc,
}
use cachelib_archive.Stdio.Ints.{le_bytes, length-le_bytes, le_value-le_bytes}
use cachelib_archive.CString.Laws.{
  IsText, IsTrimmed, take-length, cstr-set_end, rtrim-trimmed, drop-append, take-append,
  drop-set_lt,
}
use cachelib_archive.Tmdb.Layout.{
  key_area, key_record, trimmed_key, trimmed_record, data_ptr_of, next_ptr_of,
}

-- The keys that the database can give back.
pub record IsKey (key : List ℕ) : Type 0 where
  pub some_byte : 0 < length key
  pub fits : length key ≤ 64
  pub text : IsText key
  pub trimmed : IsTrimmed key

-- Where the key records start: behind the header and the buckets.
abbrev pub head_len : ℕ
head_len = 5243136

take_all : (n : ℕ) (xs : List ℕ) → length xs ≡ n → take n xs ≡ xs
take_all n xs h = rw (← h) (take-length xs)

module _ (pad key : List ℕ) (room : length pad ≡ 4) (k : IsKey key) where
  length-key_area : length (key_area pad key) ≡ 68
  unfolding key_area
  length-key_area = omega (
    arith,
    room,
    k.fits,
    length-set (key ++ (replicate (64 - length key) 0 ++ pad)) (length key) 0,
    length-append key (replicate (64 - length key) 0 ++ pad),
    length-append (replicate (64 - length key) 0) pad,
    length-replicate {0} {A = ℕ} (64 - length key) 0,
  )

  module _ (flag d n : ℕ) where
    pub length-key_record : length (key_record flag (key_area pad key) d n) ≡ 88
    unfolding key_record
    length-key_record = omega (
      arith,
      length-key_area,
      length-append (le_bytes 4 flag) (key_area pad key ++ (le_bytes 8 d ++ le_bytes 8 n)),
      length-append (key_area pad key) (le_bytes 8 d ++ le_bytes 8 n),
      length-append (le_bytes 8 d) (le_bytes 8 n),
      length-le_bytes 4 flag,
      length-le_bytes 8 d,
      length-le_bytes 8 n,
    )

    pub trimmed_key-key_record : trimmed_key (key_record flag (key_area pad key) d n) ≡ key
    unfolding trimmed_key key_record key_area
    trimmed_key-key_record =
        rw
          (
            drop-append 4 (le_bytes 4 flag) (key_area pad key ++ (le_bytes 8 d ++ le_bytes 8 n))
                (length-le_bytes 4 flag),
            cstr-set_end key (replicate (64 - length key) 0 ++ pad) (le_bytes 8 d ++ le_bytes 8 n)
                k.text (omega (arith, length-append (replicate (64 - length key) 0) pad)),
          )
          (rtrim-trimmed key k.trimmed)

    drop_72 : drop 72 (key_record flag (key_area pad key) d n) ≡ le_bytes 8 d ++ le_bytes 8 n
    unfolding key_record
    drop_72 =
        rw (sym (append_assoc (le_bytes 4 flag) (key_area pad key) (le_bytes 8 d ++ le_bytes 8 n)))
          (drop-append 72 (le_bytes 4 flag ++ key_area pad key) _ (
            omega (
              arith,
              length-append (le_bytes 4 flag) (key_area pad key),
              length-le_bytes 4 flag,
              length-key_area,
            )))

    pub data_ptr_of-key_record :
        d < 2 ^ 64 → data_ptr_of (trimmed_record (key_record flag (key_area pad key) d n)) ≡ d
    unfolding data_ptr_of trimmed_record
    data_ptr_of-key_record h =
        rw
          (
            trimmed_key-key_record,
            drop-set_lt 72 (4 + length key) (key_record flag (key_area pad key) d n) 0
                (omega (arith, k.fits)),
            drop_72,
            take-append 8 (le_bytes 8 d) (le_bytes 8 n) (length-le_bytes 8 d),
          )
          (le_value-le_bytes 8 d h)

    drop_80 : drop 80 (key_record flag (key_area pad key) d n) ≡ le_bytes 8 n
    unfolding key_record
    drop_80 =
        rw
          (
            sym (append_assoc (key_area pad key) (le_bytes 8 d) (le_bytes 8 n)),
            sym (append_assoc (le_bytes 4 flag) (key_area pad key ++ le_bytes 8 d) (le_bytes 8 n)),
          )
          (drop-append 80 (le_bytes 4 flag ++ (key_area pad key ++ le_bytes 8 d)) _ (
            omega (
              arith,
              length-append (le_bytes 4 flag) (key_area pad key ++ le_bytes 8 d),
              length-append (key_area pad key) (le_bytes 8 d),
              length-le_bytes 4 flag,
              length-le_bytes 8 d,
              length-key_area,
            )))

    pub next_ptr_of-key_record :
        n < 2 ^ 64 → next_ptr_of (trimmed_record (key_record flag (key_area pad key) d n)) ≡ n
    unfolding next_ptr_of trimmed_record
    next_ptr_of-key_record h =
        rw
          (
            trimmed_key-key_record,
            drop-set_lt 80 (4 + length key) (key_record flag (key_area pad key) d n) 0
                (omega (arith, k.fits)),
            drop_80,
            take_all 8 (le_bytes 8 n) (length-le_bytes 8 n),
          )
          (le_value-le_bytes 8 n h)

    pub take_80 :
        take 80 (key_record flag (key_area pad key) d n)
        ≡ le_bytes 4 flag ++ (key_area pad key ++ le_bytes 8 d)
    unfolding key_record
    take_80 =
        rw
          (
            sym (append_assoc (key_area pad key) (le_bytes 8 d) (le_bytes 8 n)),
            sym (append_assoc (le_bytes 4 flag) (key_area pad key ++ le_bytes 8 d) (le_bytes 8 n)),
          )
          (take-append 80 (le_bytes 4 flag ++ (key_area pad key ++ le_bytes 8 d)) _ (
            omega (
              arith,
              length-append (le_bytes 4 flag) (key_area pad key ++ le_bytes 8 d),
              length-append (key_area pad key) (le_bytes 8 d),
              length-le_bytes 4 flag,
              length-le_bytes 8 d,
              length-key_area,
            )))
