-- ===== src/Tmdb/Map/Create.antt =====
-- A created database stands for the empty map, and a database that is opened again for its map.
use cachelib_archive.Base.{
  ℕ, zero, suc, ◌-◌, ◌≡◌, refl, ◌⊎◌, Option, none, some, List, [], arith, get_or,
}
use cachelib_archive.Stdio.{File, bytes_at, put, write_at, fwrite}
use cachelib_archive.Stdio.Ints.{le_bytes, le_value}
use cachelib_archive.Tmdb.Handle.{returns, Tdb}
use cachelib_archive.Tmdb.Find.{bucket_pos}
use cachelib_archive.Tmdb.Open.{
  db_alloc, db_create, Opened, read_write, read_only, OpenMode, mode_r, mode_c, mode_w,
  open_existing, open_files, db_open,
}
use cachelib_archive.Tmdb.Records.{head_len}
use cachelib_archive.Tmdb.Chain.{find_entry}
use cachelib_archive.Tmdb.Map.{IsData, Represents, buckets}

abbrev pub empty_map : List ℕ → Option (List ℕ)
empty_map key = none

abbrev Zeros : List ℕ → Type 0
Zeros bs = (i : ℕ) → get_or bs i 0 ≡ 0

le_bytes-Zeros : (k : ℕ) → Zeros (le_bytes k 0)
unfolding le_bytes
le_bytes-Zeros zero i = refl
le_bytes-Zeros (suc k) zero = refl
le_bytes-Zeros (suc k) (suc i) = le_bytes-Zeros k i

-- Zeros written into zeros, or behind their end.
put-zero : (f : File) (off : ℕ) (bs : List ℕ) (i : ℕ) → Zeros bs → f.byte i ≡ 0 → put f off bs i ≡ 0
unfolding put
put-zero f off bs i z h = ground (arith, z (i - off))

bytes_at-zero : (f : ℕ → ℕ) (n off : ℕ) → ((i : ℕ) → f i ≡ 0) → le_value (bytes_at f off n) ≡ 0
unfolding le_value
bytes_at-zero f zero off h = refl
bytes_at-zero f (suc n) off h = omega (arith, h off, bytes_at-zero f n (suc off) h)

created_byte : (i : ℕ) → (db_create db_alloc).idx.byte i ≡ 0
unfolding db_create db_alloc fwrite write_at
created_byte i = put-zero _ _ _ i (le_bytes-Zeros 8) (put-zero _ _ _ i (le_bytes-Zeros 4) refl)

pub created_idx_size : (db_create db_alloc).idx.size ≡ head_len
unfolding db_create db_alloc fwrite write_at le_bytes
created_idx_size = refl

pub created_dat_size : (db_create db_alloc).dat.size ≡ 256
unfolding db_create db_alloc fwrite write_at le_bytes
created_dat_size = refl

created_nhash : (db_create db_alloc).nhash ≡ buckets
unfolding db_create db_alloc
created_nhash = refl

created_origin : IsData (db_create db_alloc).dat.file 0 []
unfolding db_create db_alloc fwrite write_at put le_bytes
created_origin = record {
  len = refl;
  bytes = refl;
  inside = omega arith;
  text = tt;
  fits = omega arith;
}

pub created-Represents : Represents (db_create db_alloc) empty_map
unfolding find_entry
created-Represents = record {
  chains = λ b. [];
  nhash = created_nhash;
  index = record {
    records = 0;
    size = created_idx_size;
    chain = λ b h. bytes_at-zero (db_create db_alloc).idx.byte 8 (bucket_pos b) created_byte;
    rising = λ b. tt;
    short = λ b. omega arith;
    hashed = λ b. tt;
  };
  stored = record {
    header = omega (arith, created_dat_size);
    origin = created_origin;
    values = λ b. tt;
  };
  gives = λ key k. refl;
}

-- `_db_open` in mode "c", or where the index file is missing in any mode, gives a database for
-- reading and writing that stands for the empty map, whatever the data file held.
pub db_open-empty :
    (idx dat : Option File) (mode : OpenMode)
    → (idx ≡ none) ⊎ (mode ≡ mode_c)
    → (db : Tdb) × (db_open idx dat mode ≡ returns (read_write db)) × Represents db empty_map
unfolding db_open
db_open-empty none dat mode h = (db_create db_alloc, refl, created-Represents)
db_open-empty (some i) dat mode_c h = (db_create db_alloc, refl, created-Represents)
db_open-empty (some i) dat mode_r h = ground arith
db_open-empty (some i) dat mode_w h = ground arith

-- What mode "r" or "w" makes of a handle.
abbrev pub opened_for : OpenMode → Tdb → Opened
opened_for mode_r db = read_only db
opened_for mode_c db = read_write db
opened_for mode_w db = read_write db

-- The files of a database, opened for reading or writing, stand for the map that they stood for.
pub db_open-reopen :
    (db : Tdb) (m : List ℕ → Option (List ℕ)) (mode : OpenMode)
    → Represents db m
    → (mode ≡ mode_r) ⊎ (mode ≡ mode_w)
    → (db' : Tdb) × (db_open (some db.idx.file) (some db.dat.file) mode
        ≡ returns (opened_for mode db'))
      × Represents db' m
      × (db'.idx.file ≡ db.idx.file)
unfolding db_open open_files open_existing db_alloc
db_open-reopen db m mode_c r h = ground arith
db_open-reopen db m mode_r r h = (
  _,
  refl,
  record { chains = r.chains; nhash = refl; index = r.index; stored = r.stored; gives = r.gives },
  refl,
)
db_open-reopen db m mode_w r h = (
  _,
  refl,
  record { chains = r.chains; nhash = refl; index = r.index; stored = r.stored; gives = r.gives },
  refl,
)
