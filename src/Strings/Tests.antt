-- ===== src/Strings/Tests.antt =====
-- The laws of the string helpers at a line of text.
use cachelib_archive.Base.{ℕ, ◌≡◌, none, false, some, List, [], ◌∷◌, length, refl, arith}
use cachelib_archive.Strings.{count_parts, scan, explode_loop, explode, strpos, strrpos}
use cachelib_archive.Strings.Split.{any_has, join, join-explode}
use cachelib_archive.Strings.Search.{IsFirst, EndsAt, strpos-strrpos}
use cachelib_archive.Strings.Substr.{
  pos, negsuc, first_index, write, copy_loop, copied, substr, substr_lem,
}
use cachelib_archive.CString.{cstr}

abbrev line : List ℕ
line = b' ' ∷ b'a' ∷ b',' ∷ b'b' ∷ b',' ∷ b'1' ∷ b' ' ∷ []

explode-line : explode line b',' ≡ (b' ' ∷ b'a' ∷ []) ∷ (b'b' ∷ []) ∷ (b'1' ∷ b' ' ∷ []) ∷ []
unfolding explode count_parts explode_loop scan
explode-line = refl

join-explode_example :
    (length (explode line b',') ≡ count_parts line b',')
    × (any_has (explode line b',') b',' ≡ false)
    × (join (explode line b',') b',' ≡ line)
join-explode_example = join-explode line b','

strpos-strrpos_example : IsFirst line b',' (strpos line b',') × EndsAt line b',' (strrpos line b',')
strpos-strrpos_example = strpos-strrpos line b',' (omega arith)

substr_lem_example : substr line (negsuc 1) (pos 2) (9 ∷ 9 ∷ 9 ∷ []) ≡ some (b'1' ∷ b' ' ∷ [])
substr_lem_example =
    substr_lem (b' ' ∷ b'a' ∷ b',' ∷ b'b' ∷ b',' ∷ []) (b'1' ∷ b' ' ∷ []) [] (9 ∷ 9 ∷ 9 ∷ [])
      (negsuc 1) 1 (omega arith) refl refl refl

-- A length of 0, for the rest of the line.
substr_rest : substr line (pos 3) (pos 0) (9 ∷ []) ≡ none
unfolding substr copied copy_loop write
substr_rest = refl

-- The NUL among the bytes that are copied.
substr_end : substr line (pos 6) (pos 3) (9 ∷ 9 ∷ 9 ∷ 9 ∷ []) ≡ some (b'1' ∷ b' ' ∷ [])
unfolding substr first_index copied copy_loop write cstr
substr_end = refl
