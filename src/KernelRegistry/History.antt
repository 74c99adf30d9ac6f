-- ===== src/KernelRegistry/History.antt =====
-- Whole histories of a `KernelRegistry`
-- (orteaf/include/orteaf/internal/kernel/registry/kernel_registry.h): any calls, in any order.
use orteaf.Prelude.{
  ℕ, ◌≤◌, ◌<◌, ◌≡◌, refl, ◌∙◌, subst, inl, inr, true, ltb, ◌==◌, if◌then◌else◌, some, List, [], ◌∷◌,
  length, arith, Bool-cases, ==→eq, lt→ltb,
}
use orteaf.Prelude.Maps.{keys, find}
use orteaf.LruList.Order.{count-erase}
use orteaf.KernelRegistry.{
  Config, Registry, Kernels, create, contains, register_kernel, flush, clear, lookup, prefetch,
  found,
}
use orteaf.KernelRegistry.Tiers.{empty-IsOrdered, keys-assign}
use orteaf.KernelRegistry.Invariant.{IsValid, room, create-IsValid}
use orteaf.KernelRegistry.Preservation.{stored}
use orteaf.KernelRegistry.Lookup.{contains-stored, lookup-Served, lookup_lem}

pub data Op (M : Type 0) : Type 0 where
  lookup_op : ℕ → ℕ → Op M
  prefetch_op : ℕ → ℕ → Op M
  register_op : ℕ → M → Op M
  flush_op : Op M
  clear_op : Op M

module _ {E M : Type 0} (kernels : Kernels E M) where
  unfoldable pub perform : Op M → Registry E M → Registry E M
  unfolding lookup prefetch register_kernel flush clear
  perform (lookup_op k fresh) r = (lookup kernels r k fresh).1
  perform (prefetch_op k fresh) r = (prefetch kernels r k fresh).1
  perform (register_op k m) r = register_kernel r k m
  perform flush_op r = flush r
  perform clear_op r = clear r

  unfoldable pub perform_all : List (Op M) → Registry E M → Registry E M
  unfolding perform
  perform_all [] r = r
  perform_all (o ∷ ops) r = perform_all ops (perform o r)

-- No call of `clear`.
abbrev pub KeepsAll : {M : Type 0} → List (Op M) → Type 0
KeepsAll [] = Unit
KeepsAll (clear_op ∷ ops) = ⊥
KeepsAll (lookup_op k fresh ∷ ops) = KeepsAll ops
KeepsAll (prefetch_op k fresh ∷ ops) = KeepsAll ops
KeepsAll (register_op k m ∷ ops) = KeepsAll ops
KeepsAll (flush_op ∷ ops) = KeepsAll ops

KeepsAll-head :
    {M : Type 0} (o : Op M) (ops : List (Op M))
    → KeepsAll (o ∷ ops)
    → KeepsAll (o ∷ []) × KeepsAll ops
KeepsAll-head (lookup_op k fresh) ops h = (tt, h)
KeepsAll-head (prefetch_op k fresh) ops h = (tt, h)
KeepsAll-head (register_op k m) ops h = (tt, h)
KeepsAll-head flush_op ops h = (tt, h)
KeepsAll-head clear_op ops h = absurd h

module _ {E M : Type 0} (r : Registry E M) (v : IsValid r) where
  register_kernel-IsValid : (k : ℕ) (m : M) → IsValid (register_kernel r k m)
  unfolding register_kernel
  register_kernel-IsValid k m = elim (Bool-cases (contains r k)) [
    | inl old ↦ rw old v
    | inr new ↦ rw new record {
      cache_tier = v.cache_tier;
      main_memory_tier = v.main_memory_tier;
      apart = λ j. rw (keys-assign r.secondary_storage k m) (
          ground (
            arith,
            v.apart j,
            ==→eq j k,
            contains-stored r k v,
            count-erase j k (keys r.secondary_storage),
          ));
      cached = v.cached;
      cache_room = v.cache_room;
      main_memory_room = v.main_memory_room;
    }
  ]

  register_kernel-stored :
      (k : ℕ) (m : M) (j : ℕ)
      → ltb 0 (stored j (register_kernel r k m)) ≡ (if j == k then true else ltb 0 (stored j r))
  unfolding register_kernel
  register_kernel-stored k m j = elim (Bool-cases (contains r k)) [
    | inl old ↦ rw old (ground (arith, contains-stored r k v, ==→eq j k))
    | inr new ↦
        rw (new, keys-assign r.secondary_storage k m)
          (ground (arith, contains-stored r k v, count-erase j k (keys r.secondary_storage)))
  ]

  flush-IsValid : IsValid (flush r)
  unfolding flush find
  flush-IsValid = record {
    cache_tier = empty-IsOrdered;
    main_memory_tier = v.main_memory_tier;
    apart = v.apart;
    cached = λ k a e. absurd (ground arith);
    cache_room = omega arith;
    main_memory_room = v.main_memory_room;
  }

module _ {E M : Type 0} (kernels : Kernels E M) where
  perform-IsValid : (o : Op M) (r : Registry E M) → IsValid r → IsValid (perform kernels o r)
  unfolding perform
  perform-IsValid (lookup_op k fresh) r v = (lookup-Served kernels r k fresh v).valid
  perform-IsValid (prefetch_op k fresh) r v =
      unfold prefetch in (lookup-Served kernels r k fresh v).valid
  perform-IsValid (register_op k m) r v = register_kernel-IsValid r v k m
  perform-IsValid flush_op r v = flush-IsValid r v
  perform-IsValid clear_op r v = unfold clear in create-IsValid r.config

  pub perform_all-IsValid :
      (ops : List (Op M)) (r : Registry E M) → IsValid r → IsValid (perform_all kernels ops r)
  unfolding perform_all
  perform_all-IsValid [] r v = v
  perform_all-IsValid (o ∷ ops) r v =
      perform_all-IsValid ops (perform kernels o r) (perform-IsValid o r v)

  -- Whatever was called before, on a registry that was created with any configuration: the cache
  -- holds only addresses of entries that the main memory owns, each under its own key.
  pub perform_all-cached :
      (config : Config) (ops : List (Op M)) (k a : ℕ)
      → find (perform_all kernels ops (create config)).cache k ≡ some a
      → (e : E) × (find (perform_all kernels ops (create config)).main_memory k ≡ some (a, e))
  perform_all-cached config ops k a h =
      (perform_all-IsValid ops (create config) (create-IsValid config)).cached k a h

  perform-config :
      (o : Op M) (r : Registry E M) → IsValid r → (perform kernels o r).config ≡ r.config
  unfolding perform
  perform-config (lookup_op k fresh) r v = (lookup-Served kernels r k fresh v).configured
  perform-config (prefetch_op k fresh) r v =
      unfold prefetch in (lookup-Served kernels r k fresh v).configured
  perform-config (register_op k m) r v =
      unfold register_kernel in
      elim (Bool-cases (contains r k)) [ inl old ↦ rw old refl | inr new ↦ rw new refl ]
  perform-config flush_op r v = unfold flush in refl
  perform-config clear_op r v = unfold clear create in refl

  perform_all-config :
      (ops : List (Op M)) (r : Registry E M)
      → IsValid r
      → (perform_all kernels ops r).config ≡ r.config
  unfolding perform_all
  perform_all-config [] r v = refl
  perform_all-config (o ∷ ops) r v =
      perform_all-config ops (perform kernels o r) (perform-IsValid o r v) ∙ perform-config o r v

  -- Whatever was called before, on a registry that was created with any configuration: no tier above
  -- the secondary storage holds more entries than its capacity, a capacity of 0 read as 1.
  pub perform_all-bounds :
      (config : Config) (ops : List (Op M))
      → (length (perform_all kernels ops (create config)).cache ≤ room config.cache_capacity)
        × (length (perform_all kernels ops (create config)).main_memory
            ≤ room config.main_memory_capacity)
  perform_all-bounds config ops =
      let r = perform_all kernels ops (create config) in
      let v = perform_all-IsValid ops (create config) (create-IsValid config) in
      let same : r.config ≡ config =
        unfold create in perform_all-config ops (create config) (create-IsValid config) in
      (
        subst (λ (c : Config). length r.cache ≤ room c.cache_capacity) same v.cache_room,
        subst (λ (c : Config). length r.main_memory ≤ room c.main_memory_capacity) same
            v.main_memory_room,
      )

  perform-stored :
      (o : Op M) (r : Registry E M) (j : ℕ)
      → KeepsAll (o ∷ [])
      → IsValid r
      → 0 < stored j r
      → 0 < stored j (perform kernels o r)
  unfolding perform
  perform-stored (lookup_op k fresh) r j h v s =
      omega (arith, (lookup-Served kernels r k fresh v).kept j)
  perform-stored (prefetch_op k fresh) r j h v s =
      unfold prefetch in omega (arith, (lookup-Served kernels r k fresh v).kept j)
  perform-stored (register_op k m) r j h v s = ground (arith, register_kernel-stored r v k m j)
  perform-stored flush_op r j h v s = unfold flush in s
  perform-stored clear_op r j h v s = absurd h

  perform_all-stored :
      (ops : List (Op M)) (r : Registry E M) (j : ℕ)
      → KeepsAll ops
      → IsValid r
      → 0 < stored j r
      → 0 < stored j (perform_all kernels ops r)
  unfolding perform_all
  perform_all-stored [] r j h v s = s
  perform_all-stored (o ∷ ops) r j h v s =
      let first = KeepsAll-head o ops h in
      perform_all-stored ops (perform kernels o r) j first.1 (perform-IsValid o r v)
        (perform-stored o r j first.0 v s)

  -- A kernel that is registered in a registry reached by any calls is found from then on, however
  -- often entries are evicted or flushed, as long as `clear` is not called.
  pub register-lookup :
      (config : Config) (before after : List (Op M)) (k : ℕ) (m : M) (fresh : ℕ)
      → KeepsAll after
      → let r = perform_all kernels before (create config) in
        found (lookup kernels (perform_all kernels after (register_kernel r k m)) k fresh).0 ≡ true
  register-lookup config before after k m fresh h =
      let r = perform_all kernels before (create config) in
      let v = perform_all-IsValid before (create config) (create-IsValid config) in
      let v1 = register_kernel-IsValid r v k m in
      let r2 = perform_all kernels after (register_kernel r k m) in
      let v2 = perform_all-IsValid after (register_kernel r k m) v1 in
      let there : 0 < stored k (register_kernel r k m) =
        ground (arith, register_kernel-stored r v k m k) in
      let still = perform_all-stored after (register_kernel r k m) k h v1 there in
      (lookup_lem kernels r2 k fresh v2).0 ∙ contains-stored r2 k v2 ∙ lt→ltb 0 (stored k r2) still
