-- ===== src/Strings.antt =====
-- The other string helpers of tmdb/src/tm_util.cpp: `explode`, `strtolower`, `strtoupper`, `strpos`,
-- `strrpos`, `str_pad`, `str_repeat`, `trim`, `ltrim` and `is_numeric`. A string is the list of its
-- bytes before the NUL, a buffer the list of all its bytes.
use cachelib_archive.Base.{
  ℕ, zero, suc, ◌+◌, ◌-◌, Bool, true, false, ◌&&◌, ◌||◌, List, [], ◌∷◌, ◌++◌, Option, none, some,
  ltb, leb, ◌==◌, if◌then◌else◌, length, get_or, take, drop, replicate, map,
}
use cachelib_archive.CString.{is_space}
pub mod Split
pub mod Search
pub mod Shape
pub mod Substr
mod Tests

-- The loop that counts the parts.
unfoldable pub count_parts : List ℕ → ℕ → ℕ
count_parts [] delim = 1
count_parts (c ∷ s) delim = let rest = count_parts s delim in if c == delim then rest + 1 else rest

-- The inner loop: the bytes up to the delimiter or the end, and where the next part starts.
unfoldable pub scan : List ℕ → ℕ → List ℕ × List ℕ
scan [] delim = ([], [])
scan (c ∷ s) delim = let rest = scan s delim in if c == delim then ([], s) else (c ∷ rest.0, rest.1)

unfoldable pub explode_loop : ℕ → List ℕ → ℕ → List (List ℕ)
explode_loop zero s delim = []
explode_loop (suc k) s delim = (scan s delim).0 ∷ explode_loop k (scan s delim).1 delim

-- `*to`; `*item_num` is its length.
unfoldable pub explode : List ℕ → ℕ → List (List ℕ)
explode s delim = explode_loop (count_parts s delim) s delim

unfoldable pub lower : ℕ → ℕ
lower c = if leb b'A' c && leb c b'Z' then c + b'a' - b'A' else c

unfoldable pub upper : ℕ → ℕ
upper c = if leb b'a' c && leb c b'z' then c + b'A' - b'a' else c

-- The size of the pointer, which the code takes for the length of the string.
abbrev pub sizeof_pointer : ℕ
sizeof_pointer = 8

unfoldable pub strtolower : List ℕ → List ℕ
strtolower s = map lower (take sizeof_pointer s) ++ drop sizeof_pointer s

unfoldable pub strtoupper : List ℕ → List ℕ
strtoupper s = map upper (take sizeof_pointer s) ++ drop sizeof_pointer s

-- `none` is -1.
unfoldable pub strpos_loop : List ℕ → ℕ → ℕ → Option ℕ
strpos_loop [] c i = none
strpos_loop (x ∷ s) c i = let rest = strpos_loop s c (i + 1) in if x == c then some i else rest

unfoldable pub strpos : List ℕ → ℕ → Option ℕ
strpos s c = if c == 0 then none else strpos_loop s c 0

-- From byte `i` down, `suc i` being the argument; the byte at the end is the NUL.
unfoldable pub strrpos_loop : List ℕ → ℕ → ℕ → Option ℕ
strrpos_loop s c zero = none
strrpos_loop s c (suc i) =
    let rest = strrpos_loop s c i in if get_or s i 0 == c then some i else rest

unfoldable pub strrpos : List ℕ → ℕ → Option ℕ
strrpos s c = if c == 0 then none else strrpos_loop s c (suc (length s))

-- `memset` and `memcpy` to the start of a buffer.
unfoldable pub overwrite : List ℕ → List ℕ → List ℕ
overwrite to s = s ++ drop (length s) to

-- The status is -1 where the code refuses, the buffer then unchanged.
unfoldable pub str_pad : List ℕ → ℕ → ℕ → List ℕ → Option (List ℕ)
str_pad s len c to = if c == 0 then none else some (overwrite (overwrite to (replicate len c)) s)

unfoldable pub str_repeat : ℕ → ℕ → List ℕ → Option (List ℕ)
str_repeat input len to = if input == 0 then none else some (overwrite to (replicate len input))

-- The loop of `trim` over the first `l` bytes: how many are left.
unfoldable pub trim_loop : List ℕ → ℕ → ℕ
trim_loop s zero = zero
trim_loop s (suc l) = let rest = trim_loop s l in if is_space (get_or s l 0) then rest else suc l

unfoldable pub trim : List ℕ → List ℕ
trim s = take (trim_loop s (length s)) s

unfoldable pub ltrim : List ℕ → List ℕ
ltrim [] = []
ltrim (c ∷ s) = let rest = ltrim s in if is_space c then rest else c ∷ s

unfoldable pub is_digit : ℕ → Bool
is_digit c = leb b'0' c && leb c b'9'

-- The first index that holds no digit.
unfoldable pub digits : List ℕ → ℕ
digits [] = 0
digits (c ∷ s) = let rest = digits s in if is_digit c then suc rest else 0

unfoldable pub is_numeric : List ℕ → Bool
is_numeric s = digits s == length s
