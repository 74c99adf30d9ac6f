-- ===== src/KernelRegistry/Lookup.antt =====
-- `lookup` of `KernelRegistry` (orteaf/include/orteaf/internal/kernel/registry/kernel_registry.h)
-- through its three tiers.
use orteaf.Prelude.{
  ℕ, ◌+◌, ◌≡◌, refl, ◌∙◌, inl, inr, ltb, Option, none, some, head_or, arith, Bool-cases,
  Option-cases,
}
use orteaf.Prelude.Maps.{keys, find}
use orteaf.KernelRegistry.{
  Registry, Kernels, Stats, touch_cache, promote_to_cache, touch_main_memory, page_in, contains,
  lookup, lookup_cache, lookup_main_memory, lookup_secondary_storage, record_stats, cache_hit,
  main_memory_hit, secondary_hit, miss, found,
}
use orteaf.KernelRegistry.Tiers.{has-count, find-count, find-none-count, head-touch}
use orteaf.KernelRegistry.Invariant.{
  IsValid, touch_cache-IsValid, promote_to_cache-IsValid, promote_to_cache_lem,
}
use orteaf.KernelRegistry.Preservation.{stored, touch_main_memory-IsValid}
use orteaf.KernelRegistry.Paging.{page_in-IsValid, page_in-stored, page_in-find, page_in-config}

module _ {E M : Type 0} where
  -- Where the key of a returned pointer stands.
  abbrev pub Located : ℕ → Registry E M → Option ℕ → Type 0
  Located k r none = stored k r ≡ 0
  Located k r (some a) =
      ((e : E) × (find r.main_memory k ≡ some (a, e)))
      × (find r.cache k ≡ some a)
      × (head_or (k + 1) r.cache_lru ≡ k)

  -- What a lookup of `k` in `r` returns and leaves.
  pub record Served (k : ℕ) (r : Registry E M) (answer : Option ℕ × Registry E M) : Type 0 where
    pub valid : IsValid answer.1
    pub kept : (j : ℕ) → stored j answer.1 ≡ stored j r
    pub located : Located k answer.1 answer.0
    pub configured : answer.1.config ≡ r.config

  pub contains-stored : (r : Registry E M) (k : ℕ) → IsValid r → contains r k ≡ ltb 0 (stored k r)
  unfolding contains
  contains-stored r k v = elim (Option-cases (find r.cache k)) [
    | inl away ↦ ground (
      arith,
      find-none-count r.cache k away,
      has-count r.cache k,
      has-count r.main_memory k,
      has-count r.secondary_storage k,
    )
    | inr (a, here) ↦
        let (e, owned) = v.cached k a here in
        ground (
          arith,
          find-count r.main_memory k (a, e) owned,
          has-count r.cache k,
          has-count r.main_memory k,
          has-count r.secondary_storage k,
        )
  ]

  with_stats-IsValid : (r : Registry E M) (s : Stats) → IsValid r → IsValid (record r { stats = s })
  with_stats-IsValid r s v = record {
    cache_tier = v.cache_tier;
    main_memory_tier = v.main_memory_tier;
    apart = v.apart;
    cached = v.cached;
    cache_room = v.cache_room;
    main_memory_room = v.main_memory_room;
  }

module _ {E M : Type 0} (kernels : Kernels E M) where
  record_stats-IsValid :
      (f : Stats → Stats) (r : Registry E M) → IsValid r → IsValid (record_stats kernels f r)
  record_stats-IsValid f r v = elim (Bool-cases kernels.collects_stats) [
    | inl counts ↦ rw counts (with_stats-IsValid r (f r.stats) v)
    | inr silent ↦ rw silent v
  ]

  -- Statistics are no part of the tiers.
  record_stats-frame :
      (f : Stats → Stats) (r : Registry E M)
      → let r' = record_stats kernels f r in
        (r'.main_memory ≡ r.main_memory)
        × (r'.secondary_storage ≡ r.secondary_storage)
        × (r'.cache ≡ r.cache)
        × (r'.cache_lru ≡ r.cache_lru)
        × (r'.config ≡ r.config)
  record_stats-frame f r = elim (Bool-cases kernels.collects_stats) [
    | inl counts ↦ rw counts (refl, refl, refl, refl, refl)
    | inr silent ↦ rw silent (refl, refl, refl, refl, refl)
  ]

  promote-Served :
      (f : Stats → Stats) (k a : ℕ) (r r1 : Registry E M) (e : E)
      → IsValid r1
      → ((j : ℕ) → stored j r1 ≡ stored j r)
      → find r1.main_memory k ≡ some (a, e)
      → r1.config ≡ r.config
      → Served k r (some a, promote_to_cache (record_stats kernels f r1) k a)
  promote-Served f k a r r1 e v kept owned same =
      let r2 = record_stats kernels f r1 in
      let v2 = record_stats-IsValid f r1 v in
      let (main1, secondary1, cache1, lru1, config1) = record_stats-frame f r1 in
      let owned2 : find r2.main_memory k ≡ some (a, e) = rw main1 owned in
      let (cached, front, main2, secondary2, config2) = promote_to_cache_lem r2 v2 k a e owned2 in
      record {
        valid = promote_to_cache-IsValid r2 v2 k a e owned2;
        kept = λ j. rw (main2, secondary2, main1, secondary1) (kept j);
        located = ((e, rw main2 owned2), cached, front);
        configured = config2 ∙ config1 ∙ same;
      }

  cache_hit-Served :
      (r : Registry E M) (k a : ℕ)
      → IsValid r
      → find r.cache k ≡ some a
      → Served k r (some a, record_stats kernels cache_hit (touch_cache r k))
  cache_hit-Served r k a v here =
      let (main, secondary, cache, lru, config) = record_stats-frame cache_hit (touch_cache r k) in
      let (e, owned) = v.cached k a here in
      record {
        valid = record_stats-IsValid cache_hit (touch_cache r k) (touch_cache-IsValid r k v);
        kept = λ j. unfold touch_cache in rw (main, secondary) refl;
        located =
            unfold touch_cache in
            (
              (e, rw main owned),
              rw cache here,
              rw lru (
                  head-touch (keys r.cache) r.cache_nodes r.cache_lru v.cache_tier k (k + 1)
                    (find-count r.cache k a here)),
            );
        configured = unfold touch_cache in config;
      }

  pub lookup-Served :
      (r : Registry E M) (k fresh : ℕ) → IsValid r → Served k r (lookup kernels r k fresh)
  unfolding lookup lookup_cache lookup_main_memory lookup_secondary_storage
  lookup-Served r k fresh v = elim (Option-cases (find r.cache k)) [
    | inr (a, here) ↦ rw here (cache_hit-Served r k a v here)
    | inl uncached ↦ rw uncached (elim (Option-cases (find r.main_memory k)) [
      | inr ((a, e), here) ↦ rw here (
          promote-Served main_memory_hit k a r (touch_main_memory r k) e
            (touch_main_memory-IsValid r k v) (λ j. unfold touch_main_memory in refl)
            (unfold touch_main_memory in here) (unfold touch_main_memory in refl))
      | inl unowned ↦ rw unowned (elim (Option-cases (find r.secondary_storage k)) [
        | inr (m, here) ↦ rw here (
            promote-Served secondary_hit k fresh r (page_in kernels r k fresh m) (kernels.rebuild m)
              (page_in-IsValid kernels r v k fresh m here)
              (page_in-stored kernels r v k fresh m here) (page_in-find kernels r v k fresh m here)
              (page_in-config kernels r v k fresh m here))
        | inl unknown ↦
            let (main, secondary, cache, lru, config) = record_stats-frame miss r in
            rw unknown record {
              valid = record_stats-IsValid miss r v;
              kept = λ j. rw (main, secondary) refl;
              located = ground (
                arith,
                main,
                secondary,
                find-none-count r.main_memory k unowned,
                find-none-count r.secondary_storage k unknown,
              );
              configured = config;
            }
      ])
    ])
  ]

  found-contains :
      (r : Registry E M) (k : ℕ) (answer : Option ℕ × Registry E M)
      → IsValid r
      → Served k r answer
      → found answer.0 ≡ contains r k
  found-contains r k (none, r') v s = ground (arith, contains-stored r k v, s.located, s.kept k)
  found-contains r k (some a, r') v s =
      let ((e, owned), cached, front) = s.located in
      ground (arith, contains-stored r k v, s.kept k, find-count r'.main_memory k (a, e) owned)

  -- A lookup in a valid registry finds a key exactly if the registry contains it, wherever it
  -- stands. The returned pointer is the address of the key's entry in the main memory, and is the
  -- most recently used one of the cache. Every other key is contained exactly if it was.
  pub lookup_lem :
      (r : Registry E M) (k fresh : ℕ)
      → IsValid r
      → let (answer, r') = lookup kernels r k fresh in
        (found answer ≡ contains r k)
        × Located k r' answer
        × ((j : ℕ) → contains r' j ≡ contains r j)
  lookup_lem r k fresh v =
      let s = lookup-Served r k fresh v in
      (
        found-contains r k (lookup kernels r k fresh) v s,
        s.located,
        λ j. ground (
          arith,
          contains-stored r j v,
          contains-stored (lookup kernels r k fresh).1 j s.valid,
          s.kept j,
        ),
      )
