-- ===== src/LeaseRegistry.antt =====
-- The lease registries of orteaf/include/orteaf/internal/base/manager:
-- `FifoLeaseLifetimeRegistry` (fifo_lease_lifetime_registry.h) in `Fifo`, and `LeaseLifetimeRegistry`
-- (lease_lifetime_registry.h) in `Slots`.
--
-- A strong lease (lease/strong_lease.h) holds a control block or nothing; a control block is a
-- number, and two leases may share one. The registries reach blocks and payloads only through the
-- lease and the payload traits, which the record `Leases` takes as hooks on the rest of the program's
-- state, `World`.
pub mod Fifo
pub mod Compaction
pub mod Queue
pub mod Readiness
pub mod Slots
pub mod Active
mod Tests
use orteaf.Prelude.{ℕ, Bool, true, false, Option, none, some}
use orteaf.Diagnostics.{Result}
use orteaf.SlotPool.{Handle}

pub record Leases (World : Type 0) : Type 0 where
  -- `operator->`: the payload that a control block points to, if any.
  pub payload_of : ℕ → World → Option ℕ
  -- `payloadHandle` of a lease that holds the block, and `isValid` of a handle.
  pub handle_of : ℕ → World → Handle
  pub is_valid : Handle → Bool
  -- The copy of a lease that holds the block.
  pub copy_block : ℕ → World → World
  -- `StrongLease::release` of a lease that holds the block.
  pub release_block : ℕ → World → World
  -- `PayloadTraits::isReady`, `validateBeforeRelease` (which may throw) and `waitUntilReady`.
  pub is_ready : ℕ → World → Bool × World
  pub validate : ℕ → World → Result (Unit {0}) × World
  pub wait : ℕ → World → World

-- `operator bool` of a lease.
abbrev pub holds : Option ℕ → Bool
holds none = false
holds (some block) = true

module _ {W : Type 0} (leases : Leases W) where
  -- `operator->` of a lease.
  abbrev pub payload : Option ℕ → W → Option ℕ
  payload none world = none
  payload (some block) world = leases.payload_of block world

  -- `release` of a lease; the lease is empty afterwards.
  abbrev pub release_lease : Option ℕ → W → W
  release_lease none world = world
  release_lease (some block) world = leases.release_block block world
