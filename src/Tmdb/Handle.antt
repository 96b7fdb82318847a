-- ===== src/Tmdb/Handle.antt =====
-- The database handle `TDB`, the results of its functions, and the hash of a key.
use cachelib_archive.Base.{
  ℕ, ◌+◌, ◌-◌, ◌*◌, ◌%◌, ◌^◌, ◌<◌, List, [], ◌∷◌, ltb, if◌then◌else◌, arith,
}
use cachelib_archive.Stdio.{Stream}

-- How a call ends: with a value, by `exit(EXIT_FAILURE)`, in behaviour that C++ leaves undefined,
-- or not within the rounds that its loop was given.
pub data Run {ℓ} (A : Type ℓ) : Type ℓ where
  returns : A → Run A
  exits : Run A
  undefined : Run A
  out_of_fuel : Run A

infixl 5 ◌>>=◌
abbrev pub ◌>>=◌ {ℓ κ} : {A : Type ℓ} {B : Type κ} → Run A → (A → Run B) → Run B
returns a >>= k = k a
exits >>= k = exits
undefined >>= k = undefined
out_of_fuel >>= k = out_of_fuel

-- The `flock` that this handle holds on a file.
pub data Lock : Type 0 where
  lock_un lock_sh lock_ex : Lock

pub record Tdb : Type 0 where
  pub idx : Stream
  pub dat : Stream
  pub idx_lock : Lock
  pub dat_lock : Lock
  pub nhash : ℕ
  pub hash : ℕ
  pub idxoff : ℕ
  pub preidx : ℕ
  pub key_ptr_pos : ℕ
  pub datoff : ℕ
  pub next_off : ℕ

pub data Status : Type 0 where
  tdb_success tdb_ok tdb_error : Status

-- The mode argument of `_db_store`; `other` is any int but the three.
pub data Mode : Type 0 where
  tdb_insert tdb_replace tdb_store other : Mode

-- The results of `_db_find_and_lock`.
pub data KeyStatus : Type 0 where
  key_first key_notexist key_exist key_error : KeyStatus

-- A `char` is signed: from 128 on it is widened to 64 bits with ones.
unfoldable pub widen_char : ℕ → ℕ
widen_char c = if ltb c 128 then c else c + (2 ^ 64 - 256)

unfoldable pub hash_loop : ℕ → List ℕ → ℕ
hash_loop h [] = h
hash_loop h (c ∷ s) = hash_loop ((h * 131 + widen_char c) % 2 ^ 64) s

-- `hash & 0x7FFFFFFF` keeps the low 31 bits.
unfoldable pub db_hash : ℕ → List ℕ → ℕ
unfolding hash_loop widen_char
db_hash nhash s = (hash_loop 0 s % 2 ^ 31) % nhash

-- A bucket number is in range.
pub db_hash-lt : (nhash : ℕ) (s : List ℕ) → 0 < nhash → db_hash nhash s < nhash
unfolding db_hash
db_hash-lt nhash s h = omega arith

unfoldable pub unlock : Tdb → Tdb
unlock db = record db { idx_lock = lock_un; dat_lock = lock_un }
