-- ===== src/Server/Dispatch.antt =====
-- A message that sets the sizes, and one that asks for them behind it.
use cachelib_archive.Base.{
  ℕ, ◌+◌, ◌-◌, ◌≤◌, ◌≡◌, refl, ap, ◌∙◌, false, some, List, [], ◌∷◌, length, All, ltb, ◌<◌, arith,
}
use cachelib_archive.CString.Laws.{IsText, cstr_whole, take-length}
use cachelib_archive.Registration.{request, text_of, request_text}
use cachelib_archive.Registration.Names.{request_text-text_of, below_full}
use cachelib_archive.Cache.{CacheLib}
use cachelib_archive.Cache.Resize.{Pools, execute_new_config}
use cachelib_archive.Cache.Resize.Config.{
  IsNamed, IsDistinct, AllSizes, sum_of, final, final_units, execute_new_config-Final,
}
use cachelib_archive.Cache.Resize.Parsing.{config_text, read_config}
use cachelib_archive.Cache.Resize.Parsing.Roundtrip.{IsPool, read_config-config_text}
use cachelib_archive.Server.{
  PoolNames, AreNamed, get_cache_stats, stats_text, answered, configured, command, dispatch,
}
use cachelib_archive.Server.Stats.{stat, stat-get_cache_stats}

request_text-whole :
    (c sep : ℕ) (text : List ℕ)
    → IsText (c ∷ sep ∷ text)
    → length text < 1022
    → request_text (c ∷ sep ∷ text) ≡ request text
unfolding text_of
request_text-whole c sep text t room =
    let full = below_full (length (c ∷ sep ∷ text)) 1024 (omega arith) in
    let small : ltb (length (c ∷ sep ∷ text)) 2 ≡ false = ground arith in
    let len : length (c ∷ sep ∷ text) - 2 ≡ length text = omega arith in
    request_text-text_of (c ∷ sep ∷ text) (omega arith)
    ∙ (rw (cstr_whole (c ∷ sep ∷ text) t, text_of, full, small, len, take-length text) refl)

module _ (lib : CacheLib) (pools : Pools lib) (names : PoolNames lib) (named : AreNamed lib names)
    (id : List ℕ → ℕ) where
  -- Every pool of a configuration is reported with the size that is wanted.
  abbrev pub AllReported : lib.State → List (List ℕ × ℕ) → Type 0
  AllReported t [] = Unit {0}
  AllReported t ((name, wanted) ∷ config) =
      (stat name (get_cache_stats lib names t) ≡ some wanted) × AllReported t config

  AllSizes-AllReported :
      (s t : lib.State) (config : List (List ℕ × ℕ))
      → IsNamed lib pools id s config
      → ((name : List ℕ) → lib.get_pool_id t name ≡ lib.get_pool_id s name)
      → AllSizes lib pools id final s t config
      → AllReported t config
  AllSizes-AllReported s t [] n same a = tt
  AllSizes-AllReported s t ((name, wanted) ∷ config) n same a = (
    stat-get_cache_stats lib names named t name
        ∙ (rw (same name, n.0, a.0) (ap some (final_units (lib.pool_size s (id name)) wanted))),
    AllSizes-AllReported s t config n.1 same a.1,
  )

  dispatch_set :
      (pool_size : ℕ) (s t : lib.State) (received message : List ℕ)
      → request_text (b'S' ∷ received) ≡ request message
      → execute_new_config lib s (read_config message) ≡ some t
      → dispatch lib names pool_size s (b'S' ∷ received) ≡ configured t
  unfolding dispatch command
  dispatch_set pool_size s t received message e run = rw (e, dispatch, run)

  -- A message `S` with the text of a configuration that the pools and the memory that is not
  -- reserved have room for makes the server set the sizes, and to a message `G` behind it the
  -- server answers with statistics in which each pool of the configuration has the size that is
  -- wanted. The pools of the configuration exist and each stands there once, the text has no
  -- NUL and fewer than 1022 bytes, and the message arrives whole.
  pub dispatch-reports :
      (pool_size : ℕ) (s : lib.State) (config : List (List ℕ × ℕ)) (sep : ℕ)
      → IsNamed lib pools id s config
      → IsDistinct lib pools id config
      → sum_of lib pools id final s config
        ≤ pools.unreserved s + sum_of lib pools id (λ cur wanted. cur) s config
      → All IsPool config
      → IsText (sep ∷ config_text config)
      → length (config_text config) < 1022
      → (t : lib.State) × (dispatch lib names pool_size s (b'S' ∷ sep ∷ config_text config)
          ≡ configured t)
        × (dispatch lib names pool_size t (b'G' ∷ [])
            ≡ answered (stats_text (get_cache_stats lib names t)))
        × AllReported t config
  unfolding dispatch command
  dispatch-reports pool_size s config sep n d fits words text room =
      let (t, run, sizes, memory, others, same) =
        execute_new_config-Final lib pools id s config n d fits in
      (
        t,
        dispatch_set pool_size s t (sep ∷ config_text config) (config_text config)
            (request_text-whole b'S' sep (config_text config) ((omega arith), text) room)
            (ap (execute_new_config lib s) (read_config-config_text config words) ∙ run),
        refl,
        AllSizes-AllReported s t config n same sizes,
      )
