-- ===== src/ControlBlock/Pooled.antt =====
-- A shared control block over a `SlotPool`: what the last strong reference does to the slot.
use orteaf.Prelude.{◌+◌, ◌%◌, ◌<◌, ◌≡◌, refl, true, false, none, if◌then◌else◌, arith, get_or}
use orteaf.SlotPool.{Handle, Traits, SlotPool, invalid_handle, names_slot, is_valid, get}
use orteaf.SlotPool.Acquire.{release, try_acquire_created, try_reserve_uncreated}
use orteaf.SlotPool.Invariant.{IsValid}
use orteaf.SlotPool.Lifetime.{release-acquire, is_valid-lt}
use orteaf.ControlBlock.{PoolApi, Block, release_strong}
use orteaf.ControlBlock.Counting.{release_last}

module _ {P R C W : Type 0} (t : Traits P R C W) where
  abbrev pub slot_pool_api : PoolApi Handle (SlotPool P W)
  slot_pool_api = record {
    invalid = invalid_handle t;
    is_valid = names_slot t;
    release = release t;
  }

  names-slot_of_is_valid :
      (p : SlotPool P W) (h : Handle) → IsValid t p → is_valid t p h ≡ true → names_slot t h ≡ true
  names-slot_of_is_valid p h v e = let lt = is_valid-lt t p h e in ground (arith, v.addressable, lt)

  -- Over a well-formed slot pool with at least two generations and without `destroy_on_release`,
  -- the last strong reference of a block with a pool and a valid handle, whose generation is in
  -- range, unbinds the payload and gives its slot back: the block's handle is stale from then
  -- on, and the next acquisition of a slot in that state hands out the same slot under its next
  -- generation.
  pub release_strong-slot :
      (p : SlotPool P W) (b : Block Handle)
      → IsValid t p
      → t.destroy_on_release ≡ false
      → t.has_generation ≡ true
      → 1 < t.generation_count
      → b.handle.generation < t.generation_count
      → is_valid t p b.handle ≡ true
      → b.strong ≡ 1
      → b.has_pool ≡ true
      → let (last, b', q) = release_strong slot_pool_api b p in
        (last ≡ true)
        × (b'.payload ≡ none)
        × (b'.strong ≡ 0)
        × (get t q b.handle ≡ none)
        × ((if get_or p.created b.handle.index false
              then try_acquire_created t q
              else try_reserve_uncreated t q)
            ≡ (
              record {
                index = b.handle.index;
                generation = (get_or p.generations b.handle.index 0 + 1) % t.generation_count;
              },
              record q { freelist = p.freelist },
            ))
  release_strong-slot p b v d g n k e s hp =
      let r = release-acquire t p b.handle v d g n k e in
      rw (release_last slot_pool_api b p s (names-slot_of_is_valid p b.handle v e) hp r.0)
        (refl, refl, refl, r.2, r.3)
