-- ===== src/Latency/Tests.antt =====
-- Four numbers, with room for two.
use cachelib_archive.Base.{ℕ, ◌≡◌, some, List, [], ◌∷◌, arith, ◌*◌, ◌≤◌, ◌<◌, ◌+◌}
use cachelib_archive.Latency.Average.{average, average_lem}
use cachelib_archive.Latency.{push_all, largest, push_all-largest}

abbrev numbers : List ℕ
numbers = 5 ∷ 9 ∷ 2 ∷ 7 ∷ []

push_all-largest_example :
    push_all (record { max_heap = []; size = 2 }) numbers
    ≡ some (record { max_heap = largest 2 numbers; size = 2 })
push_all-largest_example = push_all-largest 2 numbers (omega arith)

average_lem_example : (average numbers * 4 ≤ 23) × (23 < average numbers * 4 + 4)
average_lem_example = average_lem 5 (9 ∷ 2 ∷ 7 ∷ []) (omega arith)
