-- ===== src/Stdio.antt =====
-- The parts of C's stdio that tmdb uses: a stream is a file's bytes with a position. A byte is a
-- number below 256, an integer is stored with its low byte first.
pub mod Ints
pub mod Frame
use cachelib_archive.Base.{
  ℕ, zero, suc, ◌+◌, ◌-◌, ◌&&◌, Option, none, some, List, [], ◌∷◌, ltb, leb, if◌then◌else◌, length,
  get_or,
}

-- Bytes at and behind `size` are not part of the file.
pub record File : Type 0 where
  pub size : ℕ
  pub byte : ℕ → ℕ

pub record Stream : Type 0 where
  pub file : File
  pub open file use *
  pub pos : ℕ

-- `n` bytes from `off` on.
abbrev pub bytes_at : (ℕ → ℕ) → ℕ → ℕ → List ℕ
bytes_at f off zero = []
bytes_at f off (suc n) = f off ∷ bytes_at f (suc off) n

-- `fopen` with a mode "w".
abbrev pub empty_stream : Stream
empty_stream = record { file = record { size = 0; byte = λ _. 0 }; pos = 0 }

-- `fseek(fp, off, SEEK_SET)` and `rewind`.
abbrev pub fseek_set : Stream → ℕ → Stream
fseek_set s off = record s { pos = off }

-- `fseek(fp, off, SEEK_CUR)`.
abbrev pub fseek_cur : Stream → ℕ → Stream
fseek_cur s off = record s { pos = s.pos + off }

-- `fseek(fp, -back, SEEK_END)`, where the file is long enough.
abbrev pub fseek_end : Stream → ℕ → Stream
fseek_end s back = record s { pos = s.size - back }

abbrev pub ftell : Stream → ℕ
ftell s = s.pos

-- `fread(buf, n, 1, fp)`: all `n` bytes, or `none` where the file ends before.
unfoldable pub fread : Stream → ℕ → Option (List ℕ × Stream)
fread s n =
    if leb (s.pos + n) s.size
    then some (bytes_at s.byte s.pos n, record s { pos = s.pos + n })
    else none

-- A write behind the end fills the gap with zeros.
unfoldable pub put : File → ℕ → List ℕ → ℕ → ℕ
put f off bs i =
    if leb off i && ltb i (off + length bs)
    then get_or bs (i - off) 0
    else if ltb i f.size
    then f.byte i
    else 0

abbrev pub max_of : ℕ → ℕ → ℕ
max_of a b = if ltb a b then b else a

unfoldable pub write_at : File → ℕ → List ℕ → File
write_at f off bs = record { size = max_of f.size (off + length bs); byte = put f off bs }

-- `fwrite(buf, n, 1, fp)`.
unfoldable pub fwrite : Stream → List ℕ → Stream
fwrite s bs = record { file = write_at s.file s.pos bs; pos = s.pos + length bs }
