-- ===== src/SlotPool/Tests.antt =====
-- Runs of `SlotPool`, and its theorems at a small pool.
use orteaf.Prelude.{◌≡◌, refl, true, false, [], ◌∷◌, some, arith}
use orteaf.Diagnostics.{err, out_of_range}
use orteaf.SlotPool
use orteaf.SlotPool.{
  Handle, Traits, SlotPool, size, is_valid, is_created, make_handle, get, set_created, emplace_by,
  destroy_by,
}
use orteaf.SlotPool.Examples.{numbers, make_number, three_slots, three_slots-IsValid, held}
use orteaf.SlotPool.Acquire.{try_acquire_created, try_reserve_uncreated, acquire_created, release}
use orteaf.SlotPool.Storage.{resize, clear, destroy_slots, for_each_created}
use orteaf.SlotPool.Invariant.{IsValid}
use orteaf.SlotPool.Scan.{try_acquire-top}
use orteaf.SlotPool.Lifetime.{emplace_by_lem, destroy_by_lem, release-acquire}
use orteaf.SlotPool.Clear.{clear-world, clear-resize-is_valid, destroy_all}
use orteaf.SlotPool.Reach.{start, Reach, here, next, resizes, emplaces, Reach-IsValid}

-- Slot 2 is free and created, and is not found behind slot 1.
acquire_misses : acquire_created numbers three_slots ≡ (err out_of_range, three_slots)
unfolding acquire_created try_acquire_created
acquire_misses = refl

clear_logs : (clear numbers three_slots 0 0).world ≡ 9 ∷ 7 ∷ []
unfolding clear destroy_slots SlotPool.destroy is_created is_valid make_handle set_created
clear_logs = refl

try_acquire-top_example :
    (try_acquire_created numbers three_slots ≡ (SlotPool.invalid_handle numbers, three_slots))
    × (try_reserve_uncreated numbers three_slots
        ≡ (record { index = 1; generation = 0 }, record three_slots { freelist = 2 ∷ [] }))
unfolding make_handle
try_acquire-top_example = try_acquire-top numbers three_slots 1 (2 ∷ []) refl

emplace_by_lem_example :
    let q =
      (emplace_by numbers make_number three_slots (record { index = 1; generation = 0 }) 5 0).1 in
    get numbers q (record { index = 1; generation = 0 }) ≡ some 5
unfolding is_valid is_created
emplace_by_lem_example =
    (emplace_by_lem numbers make_number three_slots (record { index = 1; generation = 0 }) 5 0
      three_slots-IsValid refl refl).3

destroy_by_lem_example :
    is_created numbers (destroy_by numbers make_number three_slots held 1 0).1 held ≡ false
unfolding is_valid is_created
destroy_by_lem_example =
    (destroy_by_lem numbers make_number three_slots held 1 0 three_slots-IsValid refl refl).2

-- The generation of slot 0 wraps from 255 to 0.
release-acquire_example :
    let q = (release numbers three_slots held).1 in
    try_acquire_created numbers q
    ≡ (record { index = 0; generation = 0 }, record q { freelist = 1 ∷ 2 ∷ [] })
unfolding is_valid
release-acquire_example =
    (release-acquire numbers three_slots held three_slots-IsValid refl refl (omega arith)
      (omega arith) refl).3

clear-world_example :
    (clear numbers three_slots 0 0).world ≡ destroy_all numbers 0 0 ((0, 7) ∷ (2, 9) ∷ []) []
unfolding for_each_created
clear-world_example = (clear-world numbers 0 0 three_slots three_slots-IsValid).0

clear-resize-is_valid_example :
    is_valid numbers
      (resize numbers (clear numbers three_slots 0 0) 2).1
      (record { index = 1; generation = 0 })
    ≡ true
clear-resize-is_valid_example =
    clear-resize-is_valid numbers 0 0 three_slots 2 (record { index = 1; generation = 0 })
      (omega arith) (omega arith) refl

history :
    Reach numbers []
      (emplace_by numbers make_number
        (resize numbers (start numbers []) 2).1
        (record { index = 0; generation = 0 })
        5
        0).1
history =
    next (next here (resizes 2)) (emplaces make_number (record { index = 0; generation = 0 }) 5 0)

Reach-IsValid_example :
    IsValid numbers
      (emplace_by numbers make_number
        (resize numbers (start numbers []) 2).1
        (record { index = 0; generation = 0 })
        5
        0).1
Reach-IsValid_example = Reach-IsValid numbers history
