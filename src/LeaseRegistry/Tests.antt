-- ===== src/LeaseRegistry/Tests.antt =====
-- The lease registries of orteaf/include/orteaf/internal/base/manager on four control blocks; the world
-- is the list of the blocks that were released.
use orteaf.Prelude.{ℕ, ◌≡◌, refl, ltb, not, ◌==◌, none, some, List, [], ◌∷◌, arith}
use orteaf.Diagnostics.{ok}
use orteaf.LeaseRegistry.{Leases}
use orteaf.LeaseRegistry.Fifo.{Fifo, release_ready}
use orteaf.LeaseRegistry.Compaction.{IsValid, queue}
use orteaf.LeaseRegistry.Queue.{Dequeued, release_ready_lem}
use orteaf.LeaseRegistry.Readiness.{release_each, release_ready-ready}
use orteaf.LeaseRegistry.Slots.{no_slots, for_each_active_lease}
use orteaf.LeaseRegistry.Active.{Op, set_op, release_op, perform_all, perform_all-for_each}

-- The payload of a block has its number; those below 3 are ready.
abbrev hooks : Leases (List ℕ)
hooks = record {
  payload_of = λ block log. some block;
  handle_of = λ block log. record { index = block; generation = 0 };
  is_valid = λ handle. not (handle.index == 255);
  copy_block = λ block log. log;
  release_block = λ block log. block ∷ log;
  is_ready = λ p log. (ltb p 3, log);
  validate = λ p log. (ok tt, log);
  wait = λ p log. log;
}

abbrev submitted : Fifo
submitted = record { leases = none ∷ some 1 ∷ some 2 ∷ some 4 ∷ []; head = 1 }

submitted-IsValid : IsValid submitted
submitted-IsValid = record { inside = omega arith; spent = λ i h. ground arith }

release_ready_run :
    release_ready hooks submitted [] ≡ (ok 2, record { leases = some 4 ∷ []; head = 0 }, 2 ∷ 1 ∷ [])
unfolding release_ready
release_ready_run = refl

release_ready_lem_example :
    let outcome = release_ready hooks submitted [] in
    IsValid outcome.1 × Dequeued hooks (queue submitted) outcome
release_ready_lem_example = release_ready_lem hooks submitted [] submitted-IsValid

release_ready-ready_example :
    (release_ready hooks submitted []).2 ≡ release_each hooks (some 1 ∷ some 2 ∷ []) []
unfolding queue
release_ready-ready_example =
    (release_ready-ready hooks (λ p w. refl) submitted [] 2 submitted-IsValid
      (λ i. (release_ready_run i).0)).2

abbrev calls : List Op
calls =
    set_op (some 2)
    ∷ set_op (some 5)
    ∷ set_op none
    ∷ release_op (record { index = 2; generation = 0 })
    ∷ set_op (some 5)
    ∷ []

perform_all-for_each_example :
    let r = (perform_all hooks calls no_slots []).0 in
    r.size ≡ (for_each_active_lease {W = List ℕ} (λ block log. log) r.entries []).0
perform_all-for_each_example = perform_all-for_each hooks calls [] [] (λ block log. log)
