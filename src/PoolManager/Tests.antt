-- ===== src/PoolManager/Tests.antt =====
-- `PoolManager` (orteaf/include/orteaf/internal/base/manager/pool_manager.h) over a pool of three numbers
-- with two control blocks.
use orteaf.Prelude.{ℕ, ◌≡◌, refl, true, false, none, some, List, [], ◌∷◌, arith}
use orteaf.Diagnostics.{ok, err, invalid_state, invalid_argument}
use orteaf.SlotPool.{Handle, SlotPool, size, is_valid, is_created, get, make_handle}
use orteaf.SlotPool.Acquire.{try_acquire_created}
use orteaf.SlotPool.Storage.{clear, for_each_created}
use orteaf.SlotPool.Examples.{numbers, three_slots, three_slots-IsValid, held}
use orteaf.SlotPool.Invariant.{IsValid}
use orteaf.ControlBlock.{Block, try_bind_payload, acquire_strong}
use orteaf.PoolManager.{
  Manager, ManagerTraits, control_traits, controls, clear_payloads, has_bound, bind,
}
use orteaf.PoolManager.Setup.{Capacities, shutdown, configure}
use orteaf.PoolManager.Configuration.{configure-payload_block_size}
use orteaf.PoolManager.Acquisition.{acquire_lease, write_block, block_at, count_reference}
use orteaf.PoolManager.Leases.{release_strong_lease}
use orteaf.PoolManager.Shutdown.{NoStrong, NoReference, shutdown_lem}
use orteaf.PoolManager.Binding.{Available}
use orteaf.PoolManager.Sharing.{IsSound, acquire_lease-acquire_lease}
use orteaf.PoolManager.Release.{OnlyLease, release_strong_lease-acquire_lease}

abbrev traits : ManagerTraits ℕ ℕ ℕ (List ℕ)
traits = record { payload = numbers; bindable = true }

abbrev no_handle : Handle
no_handle = record { index = 4294967295; generation = 255 }

abbrev new_block : Block Handle
new_block = record { strong = 0; weak = 0; handle = no_handle; payload = none; has_pool = false }

abbrev blocks : Block Handle → List ℕ → SlotPool (Block Handle) (Unit {0})
blocks first free = record {
  payloads = record { items = first ∷ new_block ∷ []; blocks = 1; capacity = 4; block_size = 4 };
  generations = 0 ∷ 0 ∷ [];
  created = true ∷ true ∷ [];
  freelist = free;
  world = tt;
}

-- A configured manager of a block pool and a first binding.
abbrev manager : SlotPool (Block Handle) (Unit {0}) → Handle → Manager ℕ (List ℕ)
manager pool first = record {
  control_block_growth_chunk_size = 1;
  payload_growth_chunk_size = 1;
  control_block_block_size = 4;
  payload_block_size = 64;
  configured = true;
  payloads = record { pool = three_slots; bound = first ∷ no_handle ∷ no_handle ∷ [] };
  control_blocks = pool;
}

abbrev idle : Manager ℕ (List ℕ)
idle = manager (blocks new_block (0 ∷ 1 ∷ [])) no_handle

abbrev control : Handle
control = record { index = 0; generation = 0 }

-- After the payload `held` was leased once.
abbrev leased_block : Block Handle
leased_block = record { strong = 1; weak = 0; handle = held; payload = some 0; has_pool = true }

abbrev leased : Manager ℕ (List ℕ)
leased = manager (blocks leased_block (1 ∷ [])) control

idle-leased : acquire_lease traits true held idle ≡ (ok control, leased)
unfolding acquire_lease try_acquire_created try_bind_payload acquire_strong control_traits is_valid
    is_created get has_bound bind make_handle
idle-leased = refl

idle-IsSound : IsSound traits idle
unfolding size control_traits
idle-IsSound = record {
  blocks = record {
    generations_length = refl;
    created_length = refl;
    in_range = omega arith;
    distinct = omega arith;
    addressable = omega arith;
  };
  bindings = refl;
}

acquire_lease-acquire_lease_example : acquire_lease traits false held leased ≡ (
  ok control,
  write_block traits leased control (count_reference traits false (block_at traits leased control)),
)
acquire_lease-acquire_lease_example =
    acquire_lease-acquire_lease traits true false idle leased held control refl idle-IsSound
      idle-leased

leased-IsValid : IsValid (controls traits) leased.control_blocks
unfolding size control_traits
leased-IsValid = record {
  generations_length = refl;
  created_length = refl;
  in_range = omega arith;
  distinct = omega arith;
  addressable = omega arith;
}

leased-Available : Available traits leased held
unfolding is_valid is_created get
leased-Available = record { configured = refl; valid = refl; created = refl; present = refl }

leased-OnlyLease : OnlyLease traits leased held control
unfolding block_at is_valid control_traits
leased-OnlyLease = record {
  strong = refl;
  weak = refl;
  handle = refl;
  pooled = refl;
  control = refl;
  counted = omega arith;
}

release_strong_lease-acquire_lease_example :
    let m' = (release_strong_lease traits (some control) leased).1 in
    acquire_lease traits true held m' ≡ (err invalid_argument, m')
release_strong_lease-acquire_lease_example =
    (release_strong_lease-acquire_lease traits leased held control true
      (record { kept = refl; numbered = refl; several = omega arith }) three_slots-IsValid
      leased-IsValid leased-Available leased-OnlyLease (omega arith)).6

shutdown_lem_example :
    let cleared = record leased { payloads = clear_payloads traits leased.payloads 0 0 } in
    let visited = for_each_created leased.control_blocks in
    ((NoStrong visited → ⊥) → shutdown traits 0 0 leased ≡ (err invalid_state, leased))
    × (NoStrong visited
        → (NoReference visited → ⊥)
        → shutdown traits 0 0 leased ≡ (err invalid_state, cleared))
    × (NoReference visited
        → shutdown traits 0 0 leased ≡ (
          ok tt,
          record cleared {
            control_blocks = clear (controls traits) leased.control_blocks tt tt;
            configured = false;
          },
        ))
shutdown_lem_example = shutdown_lem traits 0 0 leased refl

-- The numbers that a builder has when only the control blocks are set.
abbrev no_payloads : Capacities
no_payloads = record {
  control_block_capacity = 4;
  control_block_block_size = 4;
  control_block_growth_chunk_size = 1;
  payload_capacity = 0;
  payload_block_size = 0;
  payload_growth_chunk_size = 1;
}

configure-payload_block_size_example :
    configure traits no_payloads 0 0 idle ≡ (err invalid_argument, idle)
configure-payload_block_size_example =
    (configure-payload_block_size traits no_payloads 0 0 idle refl).0
