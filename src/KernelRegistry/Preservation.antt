-- ===== src/KernelRegistry/Preservation.antt =====
-- The main memory and secondary storage of `KernelRegistry`
-- (orteaf/include/orteaf/internal/kernel/registry/kernel_registry.h): the invariant and the stored
-- keys when an entry comes or goes.
use orteaf.Prelude.{
  ℕ, ◌+◌, ◌≤◌, ◌<◌, ◌≡◌, refl, ◌∙◌, ap, subst, inl, inr, ◌==◌, if◌then◌else◌, List, [], ◌∷◌, length,
  arith, Option-cases, ==→eq,
}
use orteaf.Prelude.Maps.{
  keys, find, assign, length-keys, find-remove_ne, find-assign, length-remove_le,
}
use orteaf.LruList.Order.{split_last, count, count-erase}
use orteaf.KernelRegistry.{Registry, Kernels, touch_main_memory, drop_owned, pop_back, insert_owned}
use orteaf.KernelRegistry.Tiers.{
  IsOrdered, touch-IsOrdered, remove-IsOrdered, insert-IsOrdered, pop_back-IsOrdered,
  no_nodes-IsOrdered, keys-remove, keys-assign, find-count, find-none-count, length-remove,
  remove_absent,
}
use orteaf.KernelRegistry.Invariant.{IsValid, room, find-remove-some}

module _ {E M : Type 0} where
  -- How often a key stands below the cache.
  abbrev pub stored : ℕ → Registry E M → ℕ
  stored k r = count k (keys r.main_memory) + count k (keys r.secondary_storage)

  pub touch_main_memory-IsValid :
      (r : Registry E M) (k : ℕ) → IsValid r → IsValid (touch_main_memory r k)
  unfolding touch_main_memory
  touch_main_memory-IsValid r k v = record {
    cache_tier = v.cache_tier;
    main_memory_tier =
        touch-IsOrdered (keys r.main_memory) r.main_memory_nodes r.main_memory_lru
          v.main_memory_tier k;
    apart = v.apart;
    cached = v.cached;
    cache_room = v.cache_room;
    main_memory_room = v.main_memory_room;
  }

module _ {E M : Type 0} (r : Registry E M) (v : IsValid r) where
  -- A key that stands nowhere is let into the main memory.
  pub insert_owned-IsValid :
      (k a : ℕ) (e : E)
      → stored k r ≡ 0
      → length r.main_memory < room r.config.main_memory_capacity
      → IsValid (insert_owned r k a e)
  insert_owned-IsValid k a e absent free =
      let away : count k (keys r.main_memory) ≡ 0 = omega arith in
      record {
        cache_tier = v.cache_tier;
        main_memory_tier = rw (keys-assign r.main_memory k (a, e)) (
            insert-IsOrdered (keys r.main_memory) r.main_memory_nodes r.main_memory_lru
              v.main_memory_tier k away);
        apart = λ j.
            rw (keys-assign r.main_memory k (a, e))
              (ground (arith, v.apart j, count-erase j k (keys r.main_memory)));
        cached = λ j b c.
            let (entry, f) = v.cached j b c in
            (
              entry,
              ground (
                arith,
                find-assign r.main_memory k (a, e) j,
                ==→eq j k,
                find-count r.main_memory j (b, entry) f,
              ),
            );
        cache_room = v.cache_room;
        main_memory_room =
            unfold assign in omega (arith, ap length (remove_absent r.main_memory k away));
      }

  pub insert_owned-stored :
      (k a : ℕ) (e : E) (j : ℕ)
      → stored k r ≡ 0
      → stored j (insert_owned r k a e) ≡ (if j == k then 1 else 0) + stored j r
  insert_owned-stored k a e j absent =
      rw (keys-assign r.main_memory k (a, e)) (ground (arith, count-erase j k (keys r.main_memory)))

module _ {E M : Type 0} (kernels : Kernels E M) (r : Registry E M) (v : IsValid r) where
  pub drop_owned-IsValid :
      (lru : List ℕ)
      → r.main_memory_lru ≡ lru
      → let r' = drop_owned kernels r (pop_back lru) in
        IsValid r' × (length r'.main_memory < room r.config.main_memory_capacity)
  drop_owned-IsValid [] e =
      let none_left =
        no_nodes-IsOrdered (keys r.main_memory) r.main_memory_nodes
          (subst (IsOrdered (keys r.main_memory) r.main_memory_nodes) e v.main_memory_tier) in
      (v, ground (arith, length-keys r.main_memory, ap length none_left))
  drop_owned-IsValid (x ∷ lru) e =
      let key = (split_last (x ∷ lru)).0 in
      let (tier, there) =
        pop_back-IsOrdered (keys r.main_memory) r.main_memory_nodes x lru
          (subst (IsOrdered (keys r.main_memory) r.main_memory_nodes) e v.main_memory_tier) in
      let shorter = length-remove r.main_memory key there in
      let fewer = length-remove_le r.cache key in
      elim (Option-cases (find r.main_memory key)) [
        | inl missing ↦ absurd (omega (arith, find-none-count r.main_memory key missing, there))
        | inr (owned, f) ↦ rw f (
          record {
            cache_tier =
                rw (keys-remove r.cache key)
                  (remove-IsOrdered (keys r.cache) r.cache_nodes r.cache_lru v.cache_tier key);
            main_memory_tier = rw (keys-remove r.main_memory key) tier;
            apart = λ j.
                rw
                  (
                    keys-remove r.main_memory key,
                    keys-assign r.secondary_storage key (kernels.from_entry owned.1),
                  )
                  (ground (
                    arith,
                    v.apart j,
                    v.apart key,
                    there,
                    count-erase j key (keys r.main_memory),
                    count-erase j key (keys r.secondary_storage),
                  ));
            cached = λ k a c.
                let (other, c') = find-remove-some r.cache k key a (v.cache_tier.once k) c in
                let (entry, g) = v.cached k a c' in
                (entry, find-remove_ne r.main_memory k key other ∙ g);
            cache_room = omega (arith, fewer, v.cache_room);
            main_memory_room = omega (arith, shorter, v.main_memory_room);
          },
          omega (arith, shorter, v.main_memory_room),
        )
      ]

  -- The key that is evicted moves down, and no key is lost.
  pub drop_owned-stored :
      (lru : List ℕ) (j : ℕ)
      → r.main_memory_lru ≡ lru
      → let r' = drop_owned kernels r (pop_back lru) in
        (stored j r' ≡ stored j r)
        × (r'.config ≡ r.config)
        × (count j (keys r'.main_memory) ≤ count j (keys r.main_memory))
  drop_owned-stored [] j e = (refl, refl, omega arith)
  drop_owned-stored (x ∷ lru) j e =
      let key = (split_last (x ∷ lru)).0 in
      let (tier, there) =
        pop_back-IsOrdered (keys r.main_memory) r.main_memory_nodes x lru
          (subst (IsOrdered (keys r.main_memory) r.main_memory_nodes) e v.main_memory_tier) in
      elim (Option-cases (find r.main_memory key)) [
        | inl missing ↦ absurd (omega (arith, find-none-count r.main_memory key missing, there))
        | inr (owned, f) ↦
            rw
              (
                f,
                keys-remove r.main_memory key,
                keys-assign r.secondary_storage key (kernels.from_entry owned.1),
              )
              (ground (
                arith,
                v.apart j,
                v.apart key,
                there,
                count-erase j key (keys r.main_memory),
                count-erase j key (keys r.secondary_storage),
              ))
      ]
