-- ===== src/Registration/Names.antt =====
-- The texts of a registration: names of the shared memory are told apart, and each side reads what
-- the other sends.
use cachelib_archive.Base.{
  ℕ, zero, suc, ◌+◌, ◌-◌, ◌*◌, ◌<◌, ◌≤◌, ◌≡◌, refl, sym, ap, ap₂, ◌∙◌, subst, true, false, some,
  List, [], ◌∷◌, ◌++◌, length, take, ltb, ◌==◌, arith, length-append,
}
use cachelib_archive.CString.{cstr, is_space}
use cachelib_archive.CString.Laws.{IsText, IsText-append, cstr_whole, cstr-text}
use cachelib_archive.Backend.{to_string, digits_of}
use cachelib_archive.Backend.Numbers.{
  IsDigits, IsDigits-IsText, digits_of-IsDigits, digits_of-some, value_of-digits_of, to_string-inj,
  value_of,
}
use cachelib_archive.CString.Numbers.{
  is_digit, leading, skip_spaces, to_int, stoi_digits, stoi_sign, stoi,
}
use cachelib_archive.Registration.{
  request, text_of, shm_id, registration, request_text, send_info, until_space, behind_space,
  answer_of, read_answer,
}

-- Digits have no underscore.
no_underscore : (a d : List ℕ) → ¬ IsDigits (a ++ b'_' ∷ d)
no_underscore [] d (p, q, r) = omega arith
no_underscore (c ∷ a) d (p, q, r) = no_underscore a d r

-- The last underscore splits a text.
split_last :
    (a a' d d' : List ℕ)
    → IsDigits d
    → IsDigits d'
    → a ++ b'_' ∷ d ≡ a' ++ b'_' ∷ d'
    → (a ≡ a') × (d ≡ d')
split_last [] [] d d' h h' e = (refl, ground arith)
split_last [] (c ∷ a') d d' h h' e =
    let rest : d ≡ a' ++ b'_' ∷ d' = ground arith in
    absurd (no_underscore a' d' (subst IsDigits rest h))
split_last (c ∷ a) [] d d' h h' e =
    let rest : a ++ b'_' ∷ d ≡ d' = ground arith in
    absurd (no_underscore a d (subst IsDigits (sym rest) h'))
split_last (c ∷ a) (c' ∷ a') d d' h h' e =
    let rest : a ++ b'_' ∷ d ≡ a' ++ b'_' ∷ d' = ground arith in
    let first : c ≡ c' = ground arith in
    let (p, q) = split_last a a' d d' h h' rest in (ap₂ ◌∷◌ first p, q)

-- Pools and numbers that differ give names that differ.
pub shm_id-inj : (a b : List ℕ) (n m : ℕ) → shm_id a n ≡ shm_id b m → (a ≡ b) × (n ≡ m)
unfolding shm_id to_string
shm_id-inj a b n m e =
    let (p, q) =
      split_last a b (to_string n) (to_string m) (digits_of-IsDigits (suc n) n)
        (digits_of-IsDigits (suc m) m) e in
    (p, to_string-inj n m q)

pub take-longer : (n : ℕ) (xs : List ℕ) → length xs ≤ n → take n xs ≡ xs
take-longer zero [] h = refl
take-longer zero (x ∷ xs) h = absurd (omega arith)
take-longer (suc n) [] h = refl
take-longer (suc n) (x ∷ xs) h = ap (λ ys. x ∷ ys) (take-longer n xs (omega arith))

-- A message that fits the buffer is received as it is.
pub request_text-text_of : (sent : List ℕ) → length sent ≤ 1024 → request_text sent ≡ text_of sent
unfolding request_text
request_text-text_of sent h = ap text_of (take-longer 1024 sent h)

pub below_full : (n m : ℕ) → n < m → (n == m) ≡ false
below_full n m h = ground arith

-- The name of a pool reaches the server as it is, without the NUL that the client sends behind it.
-- The name has no NUL itself, and the message, three bytes longer, fits the server's buffer of 1024
-- bytes.
pub request_text-registration :
    (name : List ℕ)
    → IsText name
    → length name < 1022
    → request_text (registration name) ≡ request name
unfolding registration text_of cstr
request_text-registration name h room =
    let size : length (name ++ 0 ∷ []) ≡ suc (length name) =
      omega (arith, length-append name (0 ∷ [])) in
    let whole : cstr (name ++ 0 ∷ []) ≡ name = cstr-text name [] h in
    let full = below_full (suc (suc (length name))) 1024 (omega arith) in
    let long : ltb (suc (suc (length name))) 2 ≡ false = ground arith in
    let count : suc (suc (suc (length name))) - 2 ≡ suc (length name) = omega arith in
    request_text-text_of (registration name) (omega arith)
    ∙ (rw (whole, text_of, full, long, size, count)
        (ap request (take-longer (suc (length name)) name (omega arith))))

until_space_digits :
    (s r : List ℕ)
    → IsDigits s
    → (until_space (s ++ b' ' ∷ r) ≡ s) × (behind_space (s ++ b' ' ∷ r) ≡ some r)
unfolding until_space behind_space
until_space_digits [] r h = (refl, refl)
until_space_digits (c ∷ s) r (p, q, h) =
    let (e, e') = until_space_digits s r h in ((ground (arith, e)), (ground (arith, e')))

leading_digits : (acc : ℕ) (s : List ℕ) → IsDigits s → leading acc s ≡ value_of acc s
unfolding leading value_of is_digit
leading_digits acc [] h = refl
leading_digits acc (c ∷ s) (p, q, h) =
    let e = leading_digits (acc * 10 + (c - 48)) s h in ground arith

stoi_digits_lem : (s : List ℕ) → IsDigits s → 0 < length s → stoi s ≡ to_int false (value_of 0 s)
unfolding stoi stoi_sign stoi_digits skip_spaces is_space is_digit
stoi_digits_lem [] h l = absurd (omega arith)
stoi_digits_lem (c ∷ s) (p, q, h) l =
    let e = leading_digits 0 (c ∷ s) (p, q, h) in
    let not_space : is_space c ≡ false = ground arith in
    let minus : (c == 45) ≡ false = ground arith in
    let plus : (c == 43) ≡ false = ground arith in
    let digit : is_digit c ≡ true = ground arith in ground arith

-- A number that fits is read back.
pub stoi-to_string : (n : ℕ) → n < 2147483648 → stoi (to_string n) ≡ some n
unfolding to_int to_string
stoi-to_string n h =
    stoi_digits_lem (to_string n) (digits_of-IsDigits (suc n) n) (digits_of-some n n)
    ∙ ap (to_int false) (value_of-digits_of (suc n) n (omega arith))
    ∙ (ground arith)

to_string-IsText : (n : ℕ) → IsText (to_string n)
unfolding to_string
to_string-IsText n = IsDigits-IsText (digits_of (suc n) n) (digits_of-IsDigits (suc n) n)

-- The client reads the pool and the name that the server sends, if the answer has fewer than 32
-- bytes, the pool's id is an `int` that is not negative, and the pool's name has no NUL.
pub read_answer-send_info :
    (pid : ℕ) (pool_name : List ℕ) (number : ℕ)
    → pid < 2147483648
    → IsText pool_name
    → length (send_info pid (shm_id pool_name number)) < 32
    → read_answer (send_info pid (shm_id pool_name number)) ≡ some (pid, shm_id pool_name number)
unfolding read_answer answer_of send_info shm_id
read_answer-send_info pid pool_name number h t short =
    let id = shm_id pool_name number in
    let id_text =
      IsText-append pool_name (b'_' ∷ to_string number) t
        ((omega arith), to_string-IsText number) in
    let whole =
      cstr_whole (to_string pid ++ b' ' ∷ id) (
        IsText-append (to_string pid) (b' ' ∷ id) (to_string-IsText pid)
          ((omega arith), id_text)) in
    let (until, behind) =
      until_space_digits (to_string pid) id
        (unfold to_string in digits_of-IsDigits (suc pid) pid) in
    let number_is = stoi-to_string pid h in
    let run : answer_of (to_string pid ++ b' ' ∷ id) ≡ some (pid, id) =
      rw (until, answer_of, number_is, behind) refl in
    let all : take 32 (to_string pid ++ b' ' ∷ id) ≡ to_string pid ++ b' ' ∷ id =
      take-longer 32 (to_string pid ++ b' ' ∷ id) (omega arith) in
    ap (λ sent. answer_of (cstr sent)) all ∙ ap answer_of whole ∙ run
