-- ===== src/Shm/Tests.antt =====
-- A cache that keeps every entry, and a client that stores a value and fetches it.
use cachelib_archive.Base.{ℕ, ◌≡◌, ◌⊎◌, refl, true, false, Option, none, some, List, [], ◌∷◌}
use native.Mathlib.Omega.{arith}
use cachelib_archive.CString.{str_eq, cstr}
use cachelib_archive.Cache.{CacheLib, set_value, get_value}
use cachelib_archive.Shm.{
  sig_set, Message, Request, set_kv, get_kv, del_kv, handle, message, after_post, as_text,
  request_of,
}
use cachelib_archive.Shm.Protocol.{
  System, Step, Reach, init, serve, copy_value, start, later, c_take, c_write, c_post, c_wait,
  c_copy, s_take, s_handle, s_post_set, s_post_get, s_post_del,
}
use cachelib_archive.Shm.Exclusion.{client_token, server_token, IsEnding, client-Exclusive}
use cachelib_archive.Shm.Served.{
  replay, reply, takes_answer, cache-replay, get_kv-reply, never_stuck,
}
use cachelib_archive.Shm.Ended.{IsStopping, has_del, del_kv-IsStopping}

unfoldable pub look_up : List (List ℕ × List ℕ) → List ℕ → Option (List ℕ)
look_up [] key = none
look_up ((k, v) ∷ entries) key = elim (str_eq k key) [ true ↦ some v | false ↦ look_up entries key ]

-- Entries are only put in front, and every other call leaves the cache as it is.
abbrev pub log_cache : CacheLib
log_cache = record {
  State = List (List ℕ × List ℕ);
  allocate = λ s _ _ _. some s;
  insert_or_replace = λ s key v. (key, v) ∷ s;
  find = λ s key. (look_up s key, s);
  remove = λ s _. (false, s);
  get_pool_id = λ _ _. none;
  add_pool = λ s _ _. (0, s);
  pool_size = λ _ _. 0;
  grow_pool = λ s _ _. s;
  shrink_pool = λ s _ _. s;
}

abbrev pub block : Message
block = record { ctrl = sig_set; pid = 0; key = []; value = [] }

abbrev pub a_key : List ℕ
a_key = b'p' ∷ b'_' ∷ b'k' ∷ []

abbrev pub a_value : List ℕ
a_value = b'v' ∷ []

abbrev start_state : System log_cache
start_state = init log_cache block []

abbrev pub put : Request
put = set_kv a_key a_value

abbrev pub get : Request
get = get_kv a_key

abbrev remove : Request
remove = del_kv a_key

-- A state and how it is reached, one step further.
abbrev pub At : Type 0
At = (s : System log_cache) × Reach log_cache 7 block [] s

unfoldable pub stored : At
unfolding serve handle message after_post
stored = (
  _,
  later
      (later
        (later
          (later
            (later (later start (c_take 0 put refl refl ((omega arith), (omega arith))))
              (c_write put refl))
            (c_post put refl))
          (s_take 0 refl refl))
        (s_handle refl))
      (s_post_set refl),
)

unfoldable pub fetched : At
unfolding stored serve handle message after_post copy_value
fetched = (
  _,
  later
      (later
        (later
          (later
            (later
              (later
                (later (later stored.1 (c_take 0 get refl refl (omega arith))) (c_write get refl))
                (c_post get refl))
              (s_take 0 refl refl))
            (s_handle refl))
          (s_post_get refl))
        (c_wait 0 a_key refl refl))
      (c_copy a_key refl),
)

removed : At
unfolding stored serve handle message after_post
removed = (
  _,
  later
      (later
        (later
          (later
            (later (later stored.1 (c_take 0 remove refl refl (omega arith))) (c_write remove refl))
            (c_post remove refl))
          (s_take 0 refl refl))
        (s_handle refl))
      (s_post_del refl),
)

client-Exclusive_example : server_token fetched.0.server ≡ 0
unfolding fetched stored client_token copy_value
client-Exclusive_example = client-Exclusive log_cache fetched.1 refl

cache-replay_example :
    (fetched.0.cache ≡ replay log_cache 7 [] fetched.0.served)
    × (IsEnding fetched.0.server
        ⊎ ((fetched.0.sent ≡ fetched.0.served)
            ⊎ ((r : Request) × (fetched.0.sent ≡ as_text r ∷ fetched.0.served))))
cache-replay_example = cache-replay log_cache 7 [] fetched.1

get_kv-reply_example :
    (e : List Request) × (fetched.0.served ≡ get_kv (cstr a_key) ∷ e)
    × (fetched.0.sent ≡ fetched.0.served)
    × (fetched.0.get_value_buf ≡ reply log_cache 7 (replay log_cache 7 [] e) (cstr a_key))
unfolding fetched stored copy_value
get_kv-reply_example = get_kv-reply log_cache 7 [] a_key fetched.1 refl

never_stuck_example :
    IsEnding fetched.0.server ⊎ ((t : System log_cache) × Step log_cache 7 fetched.0 t)
never_stuck_example = never_stuck log_cache 7 [] fetched.1

del_kv-IsStopping_example : IsStopping removed.0.server × (takes_answer removed.0.client ≡ 0)
unfolding removed stored serve handle message request_of has_del
del_kv-IsStopping_example = del_kv-IsStopping log_cache 7 removed.1 refl

fetched_value : fetched.0.get_value_buf ≡ a_value
unfolding fetched stored serve handle message copy_value cstr set_value get_value look_up str_eq
fetched_value = refl
