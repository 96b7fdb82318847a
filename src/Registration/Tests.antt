-- ===== src/Registration/Tests.antt =====
-- A registry with two threads of a pool, and the theorems on it there.
use cachelib_archive.Base.{ℕ, ◌≡◌, refl, some, List, [], ◌∷◌, arith}
use cachelib_archive.Registration.{
  Registry, Asked, no_registry, ask, register, Reach, start, later, asks, registers, new_shm_id,
  shm_id, registration, request, request_text, send_info, read_answer, put, taken, is_new_pool,
}
use cachelib_archive.CString.{str_eq}
use cachelib_archive.Backend.{to_string, digits_of}
use cachelib_archive.Registration.Names.{request_text-registration, read_answer-send_info}
use cachelib_archive.Registration.Sound.{IsSound}
use cachelib_archive.Registration.Preserved.{Reach-IsSound}

abbrev pool : List ℕ
pool = b'p' ∷ b'q' ∷ []

abbrev first : Asked
first = record { pool_name = pool; is_new = is_new_pool (no_registry.pool_record pool) }

abbrev one : Registry
one = register (ask no_registry pool) first

abbrev second : Asked
second = record { pool_name = pool; is_new = is_new_pool (one.pool_record pool) }

abbrev asked_again : Registry
asked_again = ask one pool

one_reached : Reach asked_again
unfolding register
one_reached = later (later (later start (asks pool refl)) (registers first refl)) (asks pool refl)

Reach-IsSound_example : IsSound asked_again
Reach-IsSound_example = Reach-IsSound asked_again one_reached

-- The first number is 0 and the next 1.
numbers : (new_shm_id no_registry first ≡ 0) × (new_shm_id asked_again second ≡ 1)
unfolding new_shm_id register put taken is_new_pool str_eq
numbers = (refl, refl)

request_text-registration_example : request_text (registration pool) ≡ request pool
request_text-registration_example =
    request_text-registration pool ((omega arith), ((omega arith), tt)) (omega arith)

read_answer-send_info_example : read_answer (send_info 3 (shm_id pool 1)) ≡ some (3, shm_id pool 1)
unfolding send_info shm_id to_string digits_of
read_answer-send_info_example =
    read_answer-send_info 3 pool 1 (omega arith) ((omega arith), ((omega arith), tt)) (omega arith)
