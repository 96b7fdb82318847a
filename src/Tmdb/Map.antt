-- ===== src/Tmdb/Map.antt =====
-- The database as a map: what its two files must hold, and what the map gives for a key.
pub mod Search
pub mod Index
pub mod Data
pub mod Lookup
pub mod Insert
pub mod Create
pub mod Deleted
pub mod Replaced
pub mod Modes
pub mod Reopened
use mathlib.Core.Option
use cachelib_archive.Base.{
  All, ℕ, ◌+◌, ◌*◌, ◌≤◌, ◌<◌, ◌≡◌, Option, List, [], ◌∷◌, ◌++◌, length, ◌==◌, if◌then◌else◌,
}
use cachelib_archive.Stdio.{File, bytes_at}
use cachelib_archive.Stdio.Ints.{le_bytes, le_value}
use cachelib_archive.CString.Laws.{IsText}
use cachelib_archive.Tmdb.Handle.{Tdb, db_hash}
use cachelib_archive.Tmdb.Find.{bucket_pos}
use cachelib_archive.Tmdb.Records.{IsKey, head_len}
use cachelib_archive.Tmdb.Chain.{Entry, Chain, Rising, find_entry}

-- The number of buckets of an open database.
abbrev pub buckets : ℕ
buckets = 655360

abbrev pub bucket : File → ℕ → ℕ
bucket f b = le_value (bytes_at f.byte (bucket_pos b) 8)

-- The data record of a value at `d`.
pub record IsData (f : File) (d : ℕ) (value : List ℕ) : Type 0 where
  pub len : bytes_at f.byte (d + 4) 4 ≡ le_bytes 4 (length value)
  pub bytes : bytes_at f.byte (d + 8) (length value) ≡ value
  pub inside : d + 8 + length value + 8 ≤ f.size
  pub text : IsText value
  pub fits : length value ≤ 4194304

-- The index file holds the chains, one for each bucket.
pub record IsIndex (f : File) (chains : ℕ → List Entry) : Type 0 where
  pub records : ℕ
  pub size : f.size ≡ head_len + 88 * records
  pub chain : (b : ℕ) → b < buckets → Chain f (bucket f b) (chains b)
  pub rising : (b : ℕ) → Rising 0 (chains b)
  pub short : (b : ℕ) → length (chains b) ≤ records
  pub hashed : (b : ℕ) → All (λ e. db_hash buckets e.key ≡ b) (chains b)

-- The data file holds the values, and its start reads as an empty one.
pub record IsStore (f : File) (chains : ℕ → List Entry) : Type 0 where
  pub header : 256 ≤ f.size
  pub origin : IsData f 0 []
  pub values : (b : ℕ) → All (λ e. IsData f e.data_ptr e.value) (chains b)

-- An open database, the chains of its files, and the map that these stand for.
pub record Represents (db : Tdb) (m : List ℕ → Option (List ℕ)) : Type 0 where
  pub chains : ℕ → List Entry
  pub nhash : db.nhash ≡ buckets
  pub index : IsIndex db.idx.file chains
  pub stored : IsStore db.dat.file chains
  pub gives :
      (key : List ℕ)
      → IsKey key
      → Option.map (λ e. e.value) (find_entry key (chains (db_hash buckets key))) ≡ m key

-- A chain with one more entry.
abbrev pub extend : (ℕ → List Entry) → ℕ → Entry → ℕ → List Entry
extend chains b x c = if c == b then chains c ++ x ∷ [] else chains c
