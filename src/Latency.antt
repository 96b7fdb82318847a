-- ===== src/Latency.antt =====
-- `TailLatency` of clientserver/clientserver/clientAPI.h. A priority queue is the list of its
-- elements, the top first.
use cachelib_archive.Base.{
  ℕ, zero, suc, ◌-◌, ◌<◌, ◌≤◌, ◌≡◌, refl, Bool, true, false, Option, none, some, List, [], ◌∷◌, ltb,
  leb, if◌then◌else◌, length, drop, arith, Bool-cases, ap, ◌∙◌, inl, inr, sym, length-drop,
}
pub mod Average
mod Tests

unfoldable pub queue_push : ℕ → List ℕ → List ℕ
queue_push x [] = x ∷ []
queue_push x (y ∷ ys) = let rest = queue_push x ys in if leb x y then x ∷ y ∷ ys else y ∷ rest

unfoldable pub queue_top : List ℕ → Option ℕ
queue_top [] = none
queue_top (y ∷ ys) = some y

unfoldable pub queue_pop : List ℕ → List ℕ
queue_pop [] = []
queue_pop (y ∷ ys) = ys

pub record TailLatency : Type 0 where
  pub max_heap : List ℕ
  pub size : ℕ

-- `none` is the top of an empty queue.
unfoldable pub push : TailLatency → ℕ → Option TailLatency
push l num =
    if ltb (length l.max_heap) l.size
    then some (record l { max_heap = queue_push num l.max_heap })
    else elim (queue_top l.max_heap) [
      | none ↦ none
      | some top ↦
          some (
            if ltb top num
            then record l { max_heap = queue_push num (queue_pop l.max_heap) }
            else l)
    ]

unfoldable pub get_result : TailLatency → Option ℕ
get_result l = queue_top l.max_heap

unfoldable pub clear : TailLatency → TailLatency
clear l = record l { max_heap = [] }

-- The numbers pushed on the queue, the newest at the head of the list.
unfoldable pub push_all : TailLatency → List ℕ → Option TailLatency
push_all l [] = some l
push_all l (x ∷ xs) = elim (push_all l xs) [ none ↦ none | some l' ↦ push l' x ]

-- The numbers in their order, the smallest first.
unfoldable pub sorted : List ℕ → List ℕ
sorted [] = []
sorted (x ∷ xs) = queue_push x (sorted xs)

abbrev IsAbove : ℕ → List ℕ → Type 0
IsAbove x [] = Unit {0}
IsAbove x (y ∷ ys) = (x ≤ y) × IsAbove x ys

abbrev IsSorted : List ℕ → Type 0
IsSorted [] = Unit {0}
IsSorted (x ∷ xs) = IsAbove x xs × IsSorted xs

IsAbove-trans : (x y : ℕ) (ys : List ℕ) → x ≤ y → IsAbove y ys → IsAbove x ys
IsAbove-trans x y [] h a = tt
IsAbove-trans x y (z ∷ ys) h a = (omega (arith, a.0), IsAbove-trans x y ys h a.1)

queue_push-IsAbove : (a x : ℕ) (ys : List ℕ) → a ≤ x → IsAbove a ys → IsAbove a (queue_push x ys)
unfolding queue_push
queue_push-IsAbove a x [] h s = (h, tt)
queue_push-IsAbove a x (y ∷ ys) h s = elim (Bool-cases (leb x y)) [
  | inl e ↦ rw e (h, s)
  | inr e ↦ rw e (s.0, queue_push-IsAbove a x ys h s.1)
]

queue_push-IsSorted : (x : ℕ) (ys : List ℕ) → IsSorted ys → IsSorted (queue_push x ys)
unfolding queue_push
queue_push-IsSorted x [] s = (tt, tt)
queue_push-IsSorted x (y ∷ ys) s = elim (Bool-cases (leb x y)) [
  | inl e ↦ rw e (((ground arith), IsAbove-trans x y ys (ground arith) s.0), s)
  | inr e ↦ rw e (queue_push-IsAbove y x ys (ground arith) s.0, queue_push-IsSorted x ys s.1)
]

sorted-IsSorted : (xs : List ℕ) → IsSorted (sorted xs)
unfolding sorted
sorted-IsSorted [] = tt
sorted-IsSorted (x ∷ xs) = queue_push-IsSorted x (sorted xs) (sorted-IsSorted xs)

length-queue_push : (x : ℕ) (ys : List ℕ) → length (queue_push x ys) ≡ suc (length ys)
unfolding queue_push
length-queue_push x [] = refl
length-queue_push x (y ∷ ys) = ground (arith, length-queue_push x ys)

length-sorted : (xs : List ℕ) → length (sorted xs) ≡ length xs
unfolding sorted
length-sorted [] = refl
length-sorted (x ∷ xs) = ground (arith, length-queue_push x (sorted xs), length-sorted xs)

-- A full queue: the new number takes the place of the top, or is dropped.
unfoldable replace_top : ℕ → List ℕ → List ℕ
replace_top x [] = []
replace_top x (y ∷ ys) = if ltb y x then queue_push x ys else y ∷ ys

replace_top-drop : (x n : ℕ) (ys : List ℕ) → IsAbove x ys → replace_top x (drop n ys) ≡ drop n ys
unfolding replace_top
replace_top-drop x zero [] h = refl
replace_top-drop x zero (y ∷ ys) h = ground arith
replace_top-drop x (suc n) [] h = refl
replace_top-drop x (suc n) (y ∷ ys) h = replace_top-drop x n ys h.1

drop-queue_push :
    (x n : ℕ) (ys : List ℕ)
    → IsSorted ys
    → n < length ys
    → drop (suc n) (queue_push x ys) ≡ replace_top x (drop n ys)
unfolding queue_push replace_top
drop-queue_push x n [] s h = absurd (omega arith)
drop-queue_push x zero (y ∷ ys) s h = ground arith
drop-queue_push x (suc n) (y ∷ ys) s h = elim (Bool-cases (leb x y)) [
  | inl e ↦ rw e (sym (replace_top-drop x n ys (IsAbove-trans x y ys (ground arith) s.0)))
  | inr e ↦ rw e (drop-queue_push x n ys s.1 (omega arith))
]

-- The queue after the numbers: the largest of them, as many as there is room for.
unfoldable pub largest : ℕ → List ℕ → List ℕ
largest k xs = drop (length xs - k) (sorted xs)

push-full :
    (l : TailLatency) (x : ℕ)
    → l.size ≤ length l.max_heap
    → 0 < length l.max_heap
    → push l x ≡ some (record l { max_heap = replace_top x l.max_heap })
unfolding push queue_top queue_pop replace_top
push-full l x full h = go l.max_heap l.size full h
  where
    go :
        (heap : List ℕ) (size : ℕ)
        → size ≤ length heap
        → 0 < length heap
        → push (record { max_heap = heap; size = size }) x
          ≡ some (record { max_heap = replace_top x heap; size = size })
    go [] size full h = absurd (omega arith)
    go (y ∷ ys) size full h = ground arith

push-room :
    (k x : ℕ) (heap : List ℕ)
    → length heap < k
    → push (record { max_heap = heap; size = k }) x
      ≡ some (record { max_heap = queue_push x heap; size = k })
unfolding push
push-room k x heap h = ground arith

push-largest :
    (k x : ℕ) (xs : List ℕ)
    → 0 < k
    → push (record { max_heap = largest k xs; size = k }) x
      ≡ some (record { max_heap = largest k (x ∷ xs); size = k })
unfolding largest sorted
push-largest k x xs h =
    let all = sorted xs in
    let len = length-sorted xs in
    elim (Bool-cases (ltb (length xs) k)) [
      | inl few ↦
          let e : length xs - k ≡ 0 = ground arith in
          let e' : suc (length xs) - k ≡ 0 = ground arith in
          rw e (rw e' (push-room k x all (ground arith)))
      | inr many ↦
          let n = length xs - k in
          let e' : suc (length xs) - k ≡ suc n = ground arith in
          let kept : length (drop n all) ≡ k = length-drop n all ∙ ground arith in
          rw e' (
            push-full (record { max_heap = drop n all; size = k }) x (omega arith) (omega arith)
            ∙ ap (λ (heap : List ℕ). some (record { max_heap = heap; size = k }))
                (sym (drop-queue_push x n all (sorted-IsSorted xs) (ground arith))))
    ]

-- After a series of numbers, with room for one at least, the queue has the largest of them, the
-- smallest of those at its top.
pub push_all-largest :
    (k : ℕ) (xs : List ℕ)
    → 0 < k
    → push_all (record { max_heap = []; size = k }) xs
      ≡ some (record { max_heap = largest k xs; size = k })
unfolding push_all largest sorted
push_all-largest k [] h = ground arith
push_all-largest k (x ∷ xs) h = rw (push_all-largest k xs h) (push-largest k x xs h)
