-- ===== src/CString.antt =====
-- C strings, and the string helpers of tmdb/src/tm_util.cpp. A string is the list of its bytes
-- before the NUL; a buffer is the list of all its bytes.
use cachelib_archive.Base.{
  ℕ, zero, suc, ◌+◌, ◌-◌, Bool, true, false, ◌&&◌, ◌||◌, List, [], ◌∷◌, ltb, leb, ◌==◌,
  if◌then◌else◌, length, get_or, take,
}
pub mod Laws
pub mod Numbers

-- The string at the start of a buffer.
unfoldable pub cstr : List ℕ → List ℕ
cstr [] = []
cstr (c ∷ s) = if c == 0 then [] else c ∷ cstr s

-- `isspace` in the C locale.
unfoldable pub is_space : ℕ → Bool
is_space c = c == 32 || (leb 9 c && leb c 13)

-- `strcmp(s, t) == 0`.
unfoldable pub str_eq : List ℕ → List ℕ → Bool
str_eq [] [] = true
str_eq (a ∷ s) (b ∷ t) = a == b && str_eq s t
str_eq _ _ = false

-- The loop of `rtrim`: how many of the first `n` bytes are left when it ends.
unfoldable pub rtrim_loop : List ℕ → ℕ → ℕ
rtrim_loop s zero = zero
rtrim_loop s (suc p) = if is_space (get_or s p 0) then rtrim_loop s p else suc p

unfoldable pub rtrim : List ℕ → List ℕ
rtrim s = take (rtrim_loop s (length s)) s
