-- ===== src/ControlBlock/Tests.antt =====
-- Runs of the control blocks, and their theorems at small blocks.
use orteaf.Prelude.{ℕ, ◌≡◌, refl, true, false, not, List, [], ◌∷◌, some, none, ◌==◌, arith}
use orteaf.ControlBlock
use orteaf.ControlBlock.{
  PoolApi, Block, clear_payload, acquire_strong, release_strong, release_weak, try_bind_payload,
}
use orteaf.ControlBlock.Strong
use orteaf.ControlBlock.Strong.{StrongBlock, as_shared, as_shared_refines}
use orteaf.ControlBlock.Counting.{acquire_many, release_many, release-acquire_many}
use orteaf.ControlBlock.Races.{
  Local, idle, releasing, promoting, Machine, update, increment, Reach, untouched, moved, acquires,
  reads_to_release, releases, reads_to_promote, promote_swap_fails, acquiring, in_release,
  in_promotion, IsSafe, Reach-IsSafe,
}
use orteaf.ControlBlock.Pooled.{slot_pool_api, release_strong-slot}
use orteaf.SlotPool.{get, is_valid}
use orteaf.SlotPool.Examples.{numbers, three_slots, three_slots-IsValid, held}

-- Handles are numbers, 0 the invalid one; the pool lists what was released.
abbrev logging : PoolApi ℕ (List ℕ)
logging = record { invalid = 0; is_valid = λ h. not (h == 0); release = λ pool h. (true, h ∷ pool) }

abbrev bound : Block ℕ
bound = record { strong = 0; weak = 1; handle = 5; payload = some 4096; has_pool = true }

release_many_runs :
    release_many logging 3 (acquire_many logging 3 bound) []
    ≡ (1, record bound { handle = 0; payload = none; has_pool = false }, 5 ∷ [])
unfolding release_many acquire_many acquire_strong release_strong
release_many_runs = refl

release-acquire_many_example :
    release_many logging 3 (acquire_many logging 3 bound) []
    ≡ (1, clear_payload logging (record bound { strong = 0 }), 5 ∷ [])
release-acquire_many_example =
    (release-acquire_many logging 2 bound [] refl (omega arith) refl refl refl).1

abbrev owned : StrongBlock ℕ
owned = record { strong = 1; handle = 5; payload = some 4096; has_pool = true }

as_shared_refines_example :
    (let (last, b', pool') = Strong.release_strong logging owned [] in
      (last, as_shared logging b', pool'))
    ≡ ControlBlock.release_strong logging (as_shared logging owned) []
as_shared_refines_example = (as_shared_refines logging owned [] 6 none false).4

-- Thread 0 releases the only reference between the read and the swap of thread 1's promotion; then
-- thread 2 acquires from zero.
abbrev one_reference : Machine
one_reference = record { strong = 1; zeros = 0; revivals = 0; wraps = 0; threads = λ i. idle }

abbrev both_read : ℕ → Local
both_read = update (update (λ i. idle) 1 (promoting 1)) 0 (releasing 1)

abbrev revived : Machine
revived = record {
  strong = 1;
  zeros = 1;
  revivals = 1;
  wraps = 0;
  threads =
      update (update (update both_read 0 (Local.returned true)) 1 (promoting 0)) 2
        (Local.returned true);
}

race_lost : Reach one_reference revived
unfolding update increment
race_lost =
    moved
      (moved
        (moved
          (moved (moved untouched (in_promotion (reads_to_promote 1 refl)))
            (in_release (reads_to_release 0 refl)))
          (in_release (releases 0 1 refl (omega arith) refl)))
        (in_promotion (promote_swap_fails 1 1 refl (omega arith))))
      (acquiring (acquires 2 refl))

Reach-IsSafe_example : IsSafe revived
Reach-IsSafe_example = Reach-IsSafe (omega arith) refl refl refl race_lost

release_strong-slot_example :
    let (last, b', q) =
      release_strong
        (slot_pool_api numbers)
        (record { strong = 1; weak = 0; handle = held; payload = some 4096; has_pool = true })
        three_slots in
    get numbers q held ≡ none
unfolding is_valid
release_strong-slot_example =
    (release_strong-slot numbers three_slots
      (record { strong = 1; weak = 0; handle = held; payload = some 4096; has_pool = true })
      three_slots-IsValid refl refl (omega arith) (omega arith) refl refl refl).3
