-- ===== src/Cache/Resize/Config.antt =====
-- `executeNewConfig` of clientserver/clientserver/server.cpp: the pass that shrinks makes the room
-- for the pass that grows.
use cachelib_archive.Base.{
  ℕ, ◌+◌, ◌-◌, ◌*◌, ◌/◌, ◌≤◌, ◌≡◌, ◌≢◌, ◌⊎◌, inl, inr, refl, sym, ap, ◌∙◌, some, List, [], ◌∷◌, ltb,
  ◌==◌, if◌then◌else◌, arith, Bool, Bool-cases,
}
use cachelib_archive.Cache.{CacheLib}
use cachelib_archive.Cache.Resize.{
  Pools, size_conv, resize, resize_pool, pool_size_from_name, resize_if, resize_all, above, below,
  execute_new_config,
}
use cachelib_archive.Cache.Resize.Fitting.{resize-IsResized}

-- The size that a round gives a pool of size `cur` for which `wanted` units are asked.
abbrev target : (ℕ → ℕ → Bool) → ℕ → ℕ → ℕ
target test cur wanted = if test (cur / size_conv) wanted then wanted * size_conv else cur

-- The size that a configuration gives a pool: as it was, if it has that many units already.
abbrev pub final : ℕ → ℕ → ℕ
final cur wanted = if cur / size_conv == wanted then cur else wanted * size_conv

target-above : (cur wanted : ℕ) → target above cur wanted ≤ cur
target-above cur wanted = ground arith

target-below : (cur wanted : ℕ) → cur ≤ target below cur wanted
target-below cur wanted = ground arith

target_both : (cur wanted : ℕ) → target below (target above cur wanted) wanted ≡ final cur wanted
target_both cur wanted = ground arith

pub final_units : (cur wanted : ℕ) → final cur wanted / size_conv ≡ wanted
final_units cur wanted = ground arith

module _ (lib : CacheLib) (pools : Pools lib) (id : List ℕ → ℕ) where
  -- The names are those of pools, and no pool is named twice.
  abbrev pub IsNamed : lib.State → List (List ℕ × ℕ) → Type 0
  IsNamed s [] = Unit {0}
  IsNamed s ((name, wanted) ∷ config) = (lib.get_pool_id s name ≡ some (id name)) × IsNamed s config

  abbrev pub NotIn : ℕ → List (List ℕ × ℕ) → Type 0
  NotIn p [] = Unit {0}
  NotIn p ((name, wanted) ∷ config) = (id name ≢ p) × NotIn p config

  abbrev pub IsDistinct : List (List ℕ × ℕ) → Type 0
  IsDistinct [] = Unit {0}
  IsDistinct ((name, wanted) ∷ config) = NotIn (id name) config × IsDistinct config

  -- The sum of a size over the pools of a configuration.
  unfoldable pub sum_of : (ℕ → ℕ → ℕ) → lib.State → List (List ℕ × ℕ) → ℕ
  sum_of f s [] = 0
  sum_of f s ((name, wanted) ∷ config) = f (lib.pool_size s (id name)) wanted + sum_of f s config

  abbrev pub AllSizes : (ℕ → ℕ → ℕ) → lib.State → lib.State → List (List ℕ × ℕ) → Type 0
  AllSizes f s t [] = Unit {0}
  AllSizes f s t ((name, wanted) ∷ config) =
      (lib.pool_size t (id name) ≡ f (lib.pool_size s (id name)) wanted) × AllSizes f s t config

  -- What a pass does to the pools of a configuration, and to no other.
  pub record Passed (f : ℕ → ℕ → ℕ) (s t : lib.State) (config : List (List ℕ × ℕ)) : Type 0 where
    pub sizes : AllSizes f s t config
    pub others : (p : ℕ) → NotIn p config → lib.pool_size t p ≡ lib.pool_size s p
    pub memory :
        pools.unreserved t + sum_of f s config
        ≡ pools.unreserved s + sum_of (λ cur wanted. cur) s config
    pub names : (name : List ℕ) → lib.get_pool_id t name ≡ lib.get_pool_id s name

  -- One round, at a pool's name.
  record Round (f : ℕ → ℕ → ℕ) (s t : lib.State) (p wanted : ℕ) : Type 0 where
    size : lib.pool_size t p ≡ f (lib.pool_size s p) wanted
    others : (q : ℕ) → q ≢ p → lib.pool_size t q ≡ lib.pool_size s q
    memory :
        pools.unreserved t + f (lib.pool_size s p) wanted ≡ pools.unreserved s + lib.pool_size s p
    names : (name : List ℕ) → lib.get_pool_id t name ≡ lib.get_pool_id s name

  resize-names :
      (s : lib.State) (p z : ℕ) (name : List ℕ)
      → lib.get_pool_id (resize lib s p z) name ≡ lib.get_pool_id s name
  unfolding resize
  resize-names s p z name = elim (Bool-cases (ltb (lib.pool_size s p) z)) [
    | inl e ↦ rw e (pools.same_names s p (z - lib.pool_size s p) name).0
    | inr e ↦ elim (Bool-cases (ltb z (lib.pool_size s p))) [
      | inl e' ↦ rw (e, e') (pools.same_names s p (lib.pool_size s p - z) name).1
      | inr e' ↦ rw (e, e')
    ]
  ]

  -- A pool other than `p`, to have the resized sizes of `p` alone.
  resize-Round :
      (s : lib.State) (p z : ℕ)
      → z ≤ lib.pool_size s p + pools.unreserved s
      → Round (λ cur wanted. z) s (resize lib s p z) p z
  resize-Round s p z room =
      let own = resize-IsResized lib pools s p (p + 1) z (omega arith) room in
      record {
        size = own.0;
        others = λ q ne. (resize-IsResized lib pools s p q z ne room).2;
        memory = own.1;
        names = resize-names s p z;
      }

  resize_if-Round :
      (test : ℕ → ℕ → Bool) (s : lib.State) (name : List ℕ) (p wanted : ℕ)
      → lib.get_pool_id s name ≡ some p
      → target test (lib.pool_size s p) wanted ≤ lib.pool_size s p + pools.unreserved s
      → (t : lib.State) × (resize_if lib test s name wanted ≡ some t)
        × Round (target test) s t p wanted
  unfolding resize_if pool_size_from_name resize_pool
  resize_if-Round test s name p wanted found room =
      elim (Bool-cases (test (lib.pool_size s p / size_conv) wanted)) [
        | inl e ↦
            let z = wanted * size_conv in
            let is : target test (lib.pool_size s p) wanted ≡ z = rw e in
            let r = resize-Round s p z (omega arith) in
            (
              resize lib s p z,
              (ground arith),
              record {
                size = r.size ∙ sym is;
                others = r.others;
                memory = rw is (r.memory);
                names = r.names;
              },
            )
        | inr e ↦
            let is : target test (lib.pool_size s p) wanted ≡ lib.pool_size s p = rw e in
            (
              s,
              (ground arith),
              record { size = sym is; others = λ q ne. refl; memory = rw is; names = λ n. refl },
            )
      ]

  abbrev current : ℕ → ℕ → ℕ
  current cur wanted = cur

  module _ (s t : lib.State) (p : ℕ)
      (same : (q : ℕ) → q ≢ p → lib.pool_size t q ≡ lib.pool_size s q) where
    sum_of-others :
        (f : ℕ → ℕ → ℕ) (config : List (List ℕ × ℕ))
        → NotIn p config
        → sum_of f t config ≡ sum_of f s config
    unfolding sum_of
    sum_of-others f [] n = refl
    sum_of-others f ((name, wanted) ∷ config) n =
        rw (same (id name) n.0) (rw (sum_of-others f config n.1))

    AllSizes-others :
        (f : ℕ → ℕ → ℕ) (u : lib.State) (config : List (List ℕ × ℕ))
        → NotIn p config
        → AllSizes f t u config
        → AllSizes f s u config
    AllSizes-others f u [] n a = tt
    AllSizes-others f u ((name, wanted) ∷ config) n (a, as1) =
        (a ∙ rw (same (id name) n.0), AllSizes-others f u config n.1 as1)

  IsNamed-names :
      (s t : lib.State) (config : List (List ℕ × ℕ))
      → ((name : List ℕ) → lib.get_pool_id t name ≡ lib.get_pool_id s name)
      → IsNamed s config
      → IsNamed t config
  IsNamed-names s t [] h n = tt
  IsNamed-names s t ((name, wanted) ∷ config) h (n, ns) =
      (h name ∙ n, IsNamed-names s t config h ns)

  sum_of-raised :
      (f : ℕ → ℕ → ℕ) (s : lib.State) (config : List (List ℕ × ℕ))
      → ((cur wanted : ℕ) → cur ≤ f cur wanted)
      → sum_of current s config ≤ sum_of f s config
  unfolding sum_of
  sum_of-raised f s [] h = omega arith
  sum_of-raised f s ((name, wanted) ∷ config) h =
      omega (arith, h (lib.pool_size s (id name)) wanted, sum_of-raised f s config h)

  -- A pass that only shrinks pools, or one that only grows them and has the memory for all.
  abbrev HasRoom : (ℕ → ℕ → ℕ) → lib.State → List (List ℕ × ℕ) → Type 0
  HasRoom f s config =
      ((cur wanted : ℕ) → f cur wanted ≤ cur)
      ⊎ (((cur wanted : ℕ) → cur ≤ f cur wanted)
          × (sum_of f s config ≤ pools.unreserved s + sum_of current s config))

  head-room :
      (f : ℕ → ℕ → ℕ) (s : lib.State) (name : List ℕ) (wanted : ℕ) (config : List (List ℕ × ℕ))
      → HasRoom f s ((name, wanted) ∷ config)
      → f (lib.pool_size s (id name)) wanted ≤ lib.pool_size s (id name) + pools.unreserved s
  unfolding sum_of
  head-room f s name wanted config (inl lowers) =
      omega (arith, lowers (lib.pool_size s (id name)) wanted)
  head-room f s name wanted config (inr (raises, fits)) =
      omega (arith, fits, sum_of-raised f s config raises)

  tail-room :
      (f : ℕ → ℕ → ℕ) (s t : lib.State) (name : List ℕ) (wanted : ℕ) (config : List (List ℕ × ℕ))
      → HasRoom f s ((name, wanted) ∷ config)
      → NotIn (id name) config
      → Round f s t (id name) wanted
      → HasRoom f t config
  unfolding sum_of
  tail-room f s t name wanted config (inl lowers) n r = inl lowers
  tail-room f s t name wanted config (inr (raises, fits)) n r = inr (
    raises,
    omega (
      arith,
      fits,
      r.memory,
      sum_of-others s t (id name) r.others f config n,
      sum_of-others s t (id name) r.others current config n,
    ),
  )

  resize_all-Passed :
      (test : ℕ → ℕ → Bool) (s : lib.State) (config : List (List ℕ × ℕ))
      → IsNamed s config
      → IsDistinct config
      → HasRoom (target test) s config
      → (t : lib.State) × (resize_all lib test s config ≡ some t) × Passed (target test) s t config
  unfolding resize_all sum_of
  resize_all-Passed test s [] n d h =
      (s, refl, record { sizes = tt; others = λ p a. refl; memory = refl; names = λ name. refl })
  resize_all-Passed test s ((name, wanted) ∷ config) (n, ns) (d, ds) h =
      let f = target test in
      let (u, run, r) =
        resize_if-Round test s name (id name) wanted n (head-room f s name wanted config h) in
      let (t, rest, p) =
        resize_all-Passed test u config (IsNamed-names s u config r.names ns) ds
          (tail-room f s u name wanted config h d r) in
      (
        t,
        (ground arith),
        record {
          sizes = (
            p.others (id name) d ∙ r.size,
            AllSizes-others s u (id name) r.others f t config d p.sizes,
          );
          others = λ q (a, as1). p.others q as1 ∙ r.others q (λ e. a (sym e));
          memory = omega (
            arith,
            p.memory,
            r.memory,
            sum_of-others s u (id name) r.others f config d,
            sum_of-others s u (id name) r.others current config d,
          );
          names = λ m. p.names m ∙ r.names m;
        },
      )

  -- The sizes of two passes, one after the other.
  sizes_both :
      (s t u : lib.State) (config : List (List ℕ × ℕ))
      → AllSizes (target above) s t config
      → AllSizes (target below) t u config
      → AllSizes final s u config
  sizes_both s t u [] a b = tt
  sizes_both s t u ((name, wanted) ∷ config) (a, as1) (b, bs) = (
    b ∙ ap (λ (x : ℕ). target below x wanted) a ∙ target_both (lib.pool_size s (id name)) wanted,
    sizes_both s t u config as1 bs,
  )

  sum_of-both :
      (s t : lib.State) (config : List (List ℕ × ℕ))
      → AllSizes (target above) s t config
      → sum_of (target below) t config ≡ sum_of final s config
  unfolding sum_of
  sum_of-both s t [] a = refl
  sum_of-both s t ((name, wanted) ∷ config) (a, as1) = omega (
    arith,
    sum_of-both s t config as1,
    ap (λ (x : ℕ). target below x wanted) a ∙ target_both (lib.pool_size s (id name)) wanted,
  )

  sum_of-current :
      (s t : lib.State) (config : List (List ℕ × ℕ))
      → AllSizes (target above) s t config
      → sum_of current t config ≡ sum_of (target above) s config
  unfolding sum_of
  sum_of-current s t [] a = refl
  sum_of-current s t ((name, wanted) ∷ config) (a, as1) = rw a (rw (sum_of-current s t config as1))

  -- What `executeNewConfig` leaves, the pools' names included.
  pub execute_new_config-Final :
      (s : lib.State) (config : List (List ℕ × ℕ))
      → IsNamed s config
      → IsDistinct config
      → sum_of final s config ≤ pools.unreserved s + sum_of (λ cur wanted. cur) s config
      → (t : lib.State) × (execute_new_config lib s config ≡ some t)
        × AllSizes final s t config
        × (pools.unreserved t + sum_of final s config
            ≡ pools.unreserved s + sum_of (λ cur wanted. cur) s config)
        × ((p : ℕ) → NotIn p config → lib.pool_size t p ≡ lib.pool_size s p)
        × ((name : List ℕ) → lib.get_pool_id t name ≡ lib.get_pool_id s name)
  unfolding execute_new_config
  execute_new_config-Final s config n d fits =
      let (t, first, a) = resize_all-Passed above s config n d (inl target-above) in
      let both = sum_of-both s t config a.sizes in
      let now = sum_of-current s t config a.sizes in
      let m = a.memory in
      let (u, second, b) =
        resize_all-Passed below t config (IsNamed-names s t config a.names n) d
          (inr (target-below, omega arith)) in
      let m' = b.memory in
      (
        u,
        (ground arith),
        sizes_both s t u config a.sizes b.sizes,
        (omega arith),
        (λ p outside. b.others p outside ∙ a.others p outside),
        (λ name. b.names name ∙ a.names name),
      )

  -- `executeNewConfig` on a configuration that names pools, each once, whose final sizes fit what
  -- these pools have and what is not reserved, returns; each of the pools then has its final size,
  -- the memory that is not reserved makes up the difference, and a pool outside the configuration
  -- keeps its size.
  pub execute_new_config-sizes :
      (s : lib.State) (config : List (List ℕ × ℕ)) (p : ℕ)
      → IsNamed s config
      → IsDistinct config
      → sum_of final s config ≤ pools.unreserved s + sum_of (λ cur wanted. cur) s config
      → NotIn p config
      → (t : lib.State) × (execute_new_config lib s config ≡ some t)
        × AllSizes final s t config
        × (pools.unreserved t + sum_of final s config
            ≡ pools.unreserved s + sum_of (λ cur wanted. cur) s config)
        × (lib.pool_size t p ≡ lib.pool_size s p)
  execute_new_config-sizes s config p n d fits outside =
      let (t, run, sizes, memory, others, names) = execute_new_config-Final s config n d fits in
      (t, run, sizes, memory, others p outside)
