-- ===== src/Latency/Average.antt =====
-- `average` of backend/src/utils/percentile.h, for the `unsigned int` latencies of the benchmark.
use cachelib_archive.Base.{ℕ, ◌+◌, ◌*◌, ◌/◌, ◌%◌, ◌^◌, ◌<◌, ◌≤◌, ◌≡◌, List, [], ◌∷◌, length, arith}
use native.Mathlib.Nat.{div-mul-le_self, lt-div-mul-add}

-- The sum in the type of the latencies, which wraps.
unfoldable pub add_up : List ℕ → ℕ → ℕ
add_up [] average_latency = average_latency
add_up (value ∷ latencies) average_latency = add_up latencies ((average_latency + value) % 2 ^ 32)

unfoldable pub average : List ℕ → ℕ
average [] = 0
average (value ∷ latencies) = add_up (value ∷ latencies) 0 / length (value ∷ latencies)

abbrev pub sum : List ℕ → ℕ
sum [] = 0
sum (x ∷ xs) = x + sum xs

add_up-mod : (xs : List ℕ) (a : ℕ) → a < 2 ^ 32 → add_up xs a ≡ (a + sum xs) % 2 ^ 32
unfolding add_up
add_up-mod [] a h = omega arith
add_up-mod (x ∷ xs) a h =
    let l : (a + x) % 2 ^ 32 < 2 ^ 32 = omega arith in
    omega (arith, add_up-mod xs ((a + x) % 2 ^ 32) l)

-- While the latencies add up to less than 2^32, their average is the sum divided by their number:
-- that many times the average is at most the sum, and less than their number below it.
pub average_lem :
    (x : ℕ) (xs : List ℕ)
    → sum (x ∷ xs) < 2 ^ 32
    → (average (x ∷ xs) * length (x ∷ xs) ≤ sum (x ∷ xs))
      × (sum (x ∷ xs) < average (x ∷ xs) * length (x ∷ xs) + length (x ∷ xs))
unfolding average
average_lem x xs h =
    let s : add_up (x ∷ xs) 0 ≡ sum (x ∷ xs) = omega (arith, add_up-mod (x ∷ xs) 0 (omega arith)) in
    rw s (div-mul-le_self (sum (x ∷ xs)) _, lt-div-mul-add {a = sum (x ∷ xs)} (omega arith))
