-- ===== src/FixedSlotStore/Tests.antt =====
-- Runs of `FixedSlotStore`, and its theorems at small stores.
use orteaf.Prelude.{ℕ, ◌≡◌, ◌≢◌, ◌⊎◌, ◌<◌, refl, true, false, List, [], ◌∷◌, get_or, arith}
use orteaf.SlotPool.{Handle, invalid_handle}
use orteaf.SlotPool.Examples.{numbers, make_number}
use orteaf.BlockVector
use orteaf.FixedSlotStore.{
  FixedSlotStore, size, is_valid, is_created, make_handle, set_created, advance, emplace_by,
  destroy_by, try_reserve_uncreated, try_acquire_created,
}
use orteaf.FixedSlotStore.Invariant.{IsValid}
use orteaf.FixedSlotStore.History.{
  Call, start, perform_all, emplaces, resizes, keeps_payloads, all_keep_payloads,
}
use orteaf.FixedSlotStore.Reserve.{
  perform_all-try_reserve_uncreated, destroy_by-try_reserve_uncreated,
}

-- Slots 0 and 1 are created, 2 and 3 are not.
abbrev four_slots : FixedSlotStore ℕ (List ℕ)
four_slots = record {
  payloads = record { items = 7 ∷ 9 ∷ 0 ∷ 0 ∷ []; blocks = 1; capacity = 64; block_size = 64 };
  generations = 0 ∷ 0 ∷ 0 ∷ 0 ∷ [];
  created = true ∷ true ∷ false ∷ false ∷ [];
  next_uncreated_index = 2;
  world = [];
}

four_slots-IsValid : IsValid numbers four_slots
unfolding size BlockVector.size
four_slots-IsValid = record {
  generations_length = refl;
  created_length = refl;
  cursor_bound = omega arith;
  cursor_free = refl;
  addressable = omega arith;
}

abbrev slot : ℕ → Handle
slot i = record { index = i; generation = 0 }

-- Slot 1 is made before slot 0, and the making of slot 2 fails.
abbrev calls : List (Call numbers)
calls =
    resizes 4
    ∷ emplaces make_number (slot 1) 9 0
    ∷ emplaces make_number (slot 0) 7 0
    ∷ emplaces make_number (slot 2) 0 0
    ∷ []

-- With slot 0 destroyed no created slot is found, although slot 1 is created.
acquire_misses :
    try_acquire_created numbers (destroy_by numbers make_number four_slots (slot 0) 1 0).1
    ≡ invalid_handle numbers
unfolding try_acquire_created destroy_by is_valid is_created set_created size BlockVector.size
acquire_misses = refl

reserve_run :
    try_reserve_uncreated numbers (emplace_by numbers make_number four_slots (slot 2) 5 0).1
    ≡ slot 3
unfolding try_reserve_uncreated emplace_by is_valid is_created set_created size BlockVector.size
    advance make_handle
reserve_run = refl

perform_all-try_reserve_uncreated_example :
    let p = perform_all numbers (start numbers []) calls in
    let h = try_reserve_uncreated numbers p in
    ((h ≡ make_handle numbers p h.index)
      × (is_valid numbers p h ≡ true)
      × (is_created numbers p h ≡ false)
      × ((i : ℕ) → i < h.index → get_or p.created i false ≡ true))
    ⊎ ((h ≡ invalid_handle numbers) × ((i : ℕ) → i < size p → get_or p.created i false ≡ true))
perform_all-try_reserve_uncreated_example =
    perform_all-try_reserve_uncreated numbers [] calls
      (unfold all_keep_payloads keeps_payloads in refl)

destroy_by-try_reserve_uncreated_example :
    (try_reserve_uncreated numbers (destroy_by numbers make_number four_slots (slot 0) 1 0).1).index
    ≢ 0
unfolding is_created is_valid size BlockVector.size
destroy_by-try_reserve_uncreated_example =
    (destroy_by-try_reserve_uncreated numbers make_number four_slots (slot 0) 1 0 four_slots-IsValid
      refl refl).3
