-- ===== src/KernelRegistry/Invariant.antt =====
-- The invariant of `KernelRegistry` (orteaf/include/orteaf/internal/kernel/registry/kernel_registry.h)
-- and the cache tier's operations.
use orteaf.Prelude.{
  ℕ, head_or, inl, inr, ap, subst, ◌+◌, ◌≤◌, ◌<◌, ◌≡◌, refl, sym, ◌∙◌, false, leb, ◌==◌,
  if◌then◌else◌, Option, none, some, List, [], ◌∷◌, length, arith, Bool-cases, ==→eq,
}
use orteaf.Prelude.Maps.{
  Map, keys, find, remove, assign, has, length-keys, find-remove_ne, find-assign, has-find,
}
use orteaf.LruList.Order.{erase, split_last, count, count-erase}
use orteaf.KernelRegistry.{
  Config, Registry, create, touch_cache, evict_from_cache, insert_cached, promote_to_cache,
  drop_cached, pop_back, make_cache_room,
}
use orteaf.KernelRegistry.Tiers.{
  IsOrdered, empty-IsOrdered, touch-IsOrdered, head-touch, insert-IsOrdered, pop_back-IsOrdered,
  no_nodes-IsOrdered, keys-remove, keys-assign, has-count, find-count, length-remove, remove_absent,
}

-- How many entries a tier of this capacity holds at most: one is let into a tier of capacity 0.
abbrev pub room : ℕ → ℕ
room capacity = if capacity == 0 then 1 else capacity

module _ {E M : Type 0} where
  pub record IsValid (r : Registry E M) : Type 0 where
    pub cache_tier : IsOrdered (keys r.cache) r.cache_nodes r.cache_lru
    pub main_memory_tier : IsOrdered (keys r.main_memory) r.main_memory_nodes r.main_memory_lru
    -- A key stands once, in the main memory or in the secondary storage.
    pub apart : (k : ℕ) → count k (keys r.main_memory) + count k (keys r.secondary_storage) ≤ 1
    -- A cached pointer is the address of the key's entry in the main memory.
    pub cached :
        (k a : ℕ) → find r.cache k ≡ some a → (e : E) × (find r.main_memory k ≡ some (a, e))
    pub cache_room : length r.cache ≤ room r.config.cache_capacity
    pub main_memory_room : length r.main_memory ≤ room r.config.main_memory_capacity

  pub create-IsValid : (config : Config) → IsValid (create config)
  unfolding create find
  create-IsValid config = record {
    cache_tier = empty-IsOrdered;
    main_memory_tier = empty-IsOrdered;
    apart = λ k. omega arith;
    cached = λ k a e. absurd (ground arith);
    cache_room = omega arith;
    main_memory_room = omega arith;
  }

  pub touch_cache-IsValid : (r : Registry E M) (k : ℕ) → IsValid r → IsValid (touch_cache r k)
  unfolding touch_cache
  touch_cache-IsValid r k v = record {
    cache_tier = touch-IsOrdered (keys r.cache) r.cache_nodes r.cache_lru v.cache_tier k;
    main_memory_tier = v.main_memory_tier;
    apart = v.apart;
    cached = v.cached;
    cache_room = v.cache_room;
    main_memory_room = v.main_memory_room;
  }

-- What is found when an entry of a map without repeated keys is gone.
pub find-remove-some :
    {V : Type 0} (m : Map V) (j k : ℕ) (v : V)
    → count j (keys m) ≤ 1
    → find (remove m k) j ≡ some v
    → ((j == k) ≡ false) × (find m j ≡ some v)
find-remove-some {V} m j k v once e = elim (Bool-cases (j == k)) [
  | inl same ↦
      let there = find-count (remove m k) j v e in
      let gone : 0 < count j (erase k (keys m)) = rw (← keys-remove m k) there in
      absurd (ground (arith, count-erase j k (keys m)))
  | inr other ↦ (other, sym (find-remove_ne m j k other) ∙ e)
]

module _ {E M : Type 0} (r : Registry E M) (v : IsValid r) where
  drop_cached-IsValid :
      (lru : List ℕ)
      → r.cache_lru ≡ lru
      → IsValid (drop_cached r (pop_back lru))
        × (length (drop_cached r (pop_back lru)).cache < room r.config.cache_capacity)
  drop_cached-IsValid [] e =
      let none_left =
        no_nodes-IsOrdered (keys r.cache) r.cache_nodes
          (subst (IsOrdered (keys r.cache) r.cache_nodes) e v.cache_tier) in
      (v, ground (arith, length-keys r.cache, ap length none_left))
  drop_cached-IsValid (x ∷ lru) e =
      let key = (split_last (x ∷ lru)).0 in
      let (tier, there) =
        pop_back-IsOrdered (keys r.cache) r.cache_nodes x lru
          (subst (IsOrdered (keys r.cache) r.cache_nodes) e v.cache_tier) in
      let shorter = length-remove r.cache key there in
      (
        record {
          cache_tier = rw (keys-remove r.cache key) tier;
          main_memory_tier = v.main_memory_tier;
          apart = v.apart;
          cached =
              λ k a c. v.cached k a (find-remove-some r.cache k key a (v.cache_tier.once k) c).1;
          cache_room = omega (arith, shorter, v.cache_room);
          main_memory_room = v.main_memory_room;
        },
        omega (arith, shorter, v.cache_room),
      )

  -- `evictFromCache` leaves room for one more pointer.
  pub evict_from_cache-IsValid :
      IsValid (evict_from_cache r)
      × (length (evict_from_cache r).cache < room r.config.cache_capacity)
  unfolding evict_from_cache
  evict_from_cache-IsValid = drop_cached-IsValid r.cache_lru refl

  pub insert_cached-IsValid :
      (k a : ℕ) (e : E)
      → find r.main_memory k ≡ some (a, e)
      → count k (keys r.cache) ≡ 0
      → length r.cache < room r.config.cache_capacity
      → IsValid (insert_cached r k a)
  insert_cached-IsValid k a e owned absent free = record {
    cache_tier =
        rw (keys-assign r.cache k a)
          (insert-IsOrdered (keys r.cache) r.cache_nodes r.cache_lru v.cache_tier k absent);
    main_memory_tier = v.main_memory_tier;
    apart = v.apart;
    cached = λ j b c. elim (Bool-cases (j == k)) [
      | inl same ↦ (e, ground (arith, find-assign r.cache k a j, ==→eq j k same))
      | inr other ↦ v.cached j b (ground (arith, find-assign r.cache k a j))
    ];
    cache_room = unfold assign in omega (arith, ap length (remove_absent r.cache k absent));
    main_memory_room = v.main_memory_room;
  }

  -- The eviction of a cached pointer changes nothing else.
  drop_cached-frame :
      (popped : Option (ℕ × List ℕ)) (j : ℕ)
      → ((drop_cached r popped).main_memory ≡ r.main_memory)
        × ((drop_cached r popped).secondary_storage ≡ r.secondary_storage)
        × ((drop_cached r popped).config ≡ r.config)
        × (count j (keys (drop_cached r popped).cache) ≤ count j (keys r.cache))
  drop_cached-frame none j = (refl, refl, refl, omega arith)
  drop_cached-frame (some (key, lru)) j = (
    refl,
    refl,
    refl,
    rw (keys-remove r.cache key) (omega (arith, count-erase j key (keys r.cache))),
  )

  make_cache_room-IsValid :
      IsValid (make_cache_room r)
      × (length (make_cache_room r).cache < room r.config.cache_capacity)
  unfolding make_cache_room
  make_cache_room-IsValid = elim (Bool-cases (leb r.config.cache_capacity (length r.cache))) [
    | inl full ↦ rw full evict_from_cache-IsValid
    | inr free ↦ rw free (v, ground arith)
  ]

  make_cache_room-frame :
      (j : ℕ)
      → ((make_cache_room r).main_memory ≡ r.main_memory)
        × ((make_cache_room r).secondary_storage ≡ r.secondary_storage)
        × ((make_cache_room r).config ≡ r.config)
        × (count j (keys (make_cache_room r).cache) ≤ count j (keys r.cache))
  unfolding make_cache_room evict_from_cache
  make_cache_room-frame j = elim (Bool-cases (leb r.config.cache_capacity (length r.cache))) [
    | inl full ↦ rw full (drop_cached-frame (pop_back r.cache_lru) j)
    | inr free ↦ rw free (refl, refl, refl, omega arith)
  ]

module _ {E M : Type 0} (r : Registry E M) (v : IsValid r) where
  -- `promoteToCache` of a key with the address of its entry.
  pub promote_to_cache-IsValid :
      (k a : ℕ) (e : E) → find r.main_memory k ≡ some (a, e) → IsValid (promote_to_cache r k a)
  unfolding promote_to_cache
  promote_to_cache-IsValid k a e owned = elim (Bool-cases (has r.cache k)) [
    | inl old ↦ rw old (touch_cache-IsValid r k v)
    | inr new ↦
        let (kept, free) = make_cache_room-IsValid r v in
        let (main, secondary, config, fewer) = make_cache_room-frame r v k in
        rw new (
          insert_cached-IsValid (make_cache_room r) kept k a e (rw main owned)
            (ground (arith, has-count r.cache k)) (rw config free))
  ]

  -- It makes the pointer the cache's most recently used, and changes no other tier.
  pub promote_to_cache_lem :
      (k a : ℕ) (e : E)
      → find r.main_memory k ≡ some (a, e)
      → let r' = promote_to_cache r k a in
        (find r'.cache k ≡ some a)
        × (head_or (k + 1) r'.cache_lru ≡ k)
        × (r'.main_memory ≡ r.main_memory)
        × (r'.secondary_storage ≡ r.secondary_storage)
        × (r'.config ≡ r.config)
  unfolding promote_to_cache touch_cache
  promote_to_cache_lem k a e owned = elim (Bool-cases (has r.cache k)) [
    | inl old ↦
        let (b, e') = has-find r.cache k old in
        let (f, o) = v.cached k b e' in
        let counted : 0 < count k (keys r.cache) = find-count r.cache k b e' in
        rw old (
          ground arith,
          head-touch (keys r.cache) r.cache_nodes r.cache_lru v.cache_tier k (k + 1) counted,
          refl,
          refl,
          refl,
        )
    | inr new ↦
        let (main, secondary, config, fewer) = make_cache_room-frame r v k in
        rw new (
          ground (arith, find-assign (make_cache_room r).cache k a k),
          refl,
          main,
          secondary,
          config,
        )
  ]
