-- ===== src/KernelRegistry/Paging.antt =====
-- Making room in the main memory and `pageIn` of `KernelRegistry`
-- (orteaf/include/orteaf/internal/kernel/registry/kernel_registry.h): the invariant and the stored
-- keys.
use orteaf.Prelude.{
  ℕ, ◌-◌, ◌≤◌, ◌<◌, ◌≡◌, refl, inl, inr, leb, ◌==◌, if◌then◌else◌, some, length, arith, Bool-cases,
  ==→eq,
}
use orteaf.Prelude.Maps.{keys, find, remove, find-assign}
use orteaf.LruList.Order.{count, count-erase}
use orteaf.KernelRegistry.{
  Registry, Kernels, evict_from_main_memory, make_main_memory_room, page_in,
}
use orteaf.KernelRegistry.Tiers.{keys-remove, find-count}
use orteaf.KernelRegistry.Invariant.{IsValid, room}
use orteaf.KernelRegistry.Preservation.{
  stored, insert_owned-IsValid, insert_owned-stored, drop_owned-IsValid, drop_owned-stored,
}

module _ {E M : Type 0} (kernels : Kernels E M) (r : Registry E M) (v : IsValid r) where
  make_main_memory_room-IsValid :
      let r' = make_main_memory_room kernels r in
      IsValid r' × (length r'.main_memory < room r.config.main_memory_capacity)
  unfolding make_main_memory_room evict_from_main_memory
  make_main_memory_room-IsValid =
      elim (Bool-cases (leb r.config.main_memory_capacity (length r.main_memory))) [
        | inl full ↦ rw full (drop_owned-IsValid kernels r v r.main_memory_lru refl)
        | inr free ↦ rw free (v, ground arith)
      ]

  make_main_memory_room-stored :
      (j : ℕ)
      → let r' = make_main_memory_room kernels r in
        (stored j r' ≡ stored j r)
        × (r'.config ≡ r.config)
        × (count j (keys r'.main_memory) ≤ count j (keys r.main_memory))
  unfolding make_main_memory_room evict_from_main_memory
  make_main_memory_room-stored j =
      elim (Bool-cases (leb r.config.main_memory_capacity (length r.main_memory))) [
        | inl full ↦ rw full (drop_owned-stored kernels r v r.main_memory_lru j refl)
        | inr free ↦ rw free (refl, refl, omega arith)
      ]

-- A key of the secondary storage moves up into the main memory, and no key is lost.
module _ {E M : Type 0} (kernels : Kernels E M) (r : Registry E M) (v : IsValid r) (k a : ℕ) (m : M)
    (e : find r.secondary_storage k ≡ some m) where
  abbrev taken : Registry E M
  taken = record r { secondary_storage = remove r.secondary_storage k }

  taken-stored : (j : ℕ) → stored j taken ≡ stored j r - (if j == k then 1 else 0)
  taken-stored j = rw (keys-remove r.secondary_storage k) (
      ground (
        arith,
        v.apart j,
        find-count r.secondary_storage k m e,
        count-erase j k (keys r.secondary_storage),
      ))

  stored-eq_one : stored k r ≡ 1
  stored-eq_one = omega (arith, v.apart k, find-count r.secondary_storage k m e)

  taken-IsValid : IsValid taken
  taken-IsValid = record {
    cache_tier = v.cache_tier;
    main_memory_tier = v.main_memory_tier;
    apart = λ j. omega (arith, taken-stored j, v.apart j);
    cached = v.cached;
    cache_room = v.cache_room;
    main_memory_room = v.main_memory_room;
  }

  roomy-stored : stored k (make_main_memory_room kernels taken) ≡ 0
  roomy-stored =
      let (kept, config, fewer) = make_main_memory_room-stored kernels taken taken-IsValid k in
      ground (arith, kept, taken-stored k, stored-eq_one)

  pub page_in-IsValid : IsValid (page_in kernels r k a m)
  unfolding page_in
  page_in-IsValid =
      let (valid, free) = make_main_memory_room-IsValid kernels taken taken-IsValid in
      let (kept, config, fewer) = make_main_memory_room-stored kernels taken taken-IsValid k in
      insert_owned-IsValid (make_main_memory_room kernels taken) valid k a (kernels.rebuild m)
        roomy-stored (rw config free)

  pub page_in-stored : (j : ℕ) → stored j (page_in kernels r k a m) ≡ stored j r
  unfolding page_in
  page_in-stored j =
      let (valid, free) = make_main_memory_room-IsValid kernels taken taken-IsValid in
      let (kept, config, fewer) = make_main_memory_room-stored kernels taken taken-IsValid j in
      let put =
        insert_owned-stored (make_main_memory_room kernels taken) valid k a (kernels.rebuild m) j
          roomy-stored in
      ground (arith, put, kept, taken-stored j, stored-eq_one, ==→eq j k)

  pub page_in-find : find (page_in kernels r k a m).main_memory k ≡ some (a, kernels.rebuild m)
  unfolding page_in
  page_in-find = ground (
    arith,
    find-assign (make_main_memory_room kernels taken).main_memory k (a, kernels.rebuild m) k,
  )

  pub page_in-config : (page_in kernels r k a m).config ≡ r.config
  unfolding page_in
  page_in-config = (make_main_memory_room-stored kernels taken taken-IsValid k).1
