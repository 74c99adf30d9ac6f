-- ===== src/PoolManager/Leases.antt =====
-- The leases that `PoolManager` hands out: `StrongLease` and `WeakLease` of
-- orteaf/include/orteaf/internal/base/lease/strong_lease.h and weak_lease.h. A lease holds the handle of
-- its control block, whose slot its pointer names, or nothing; its pool is the manager's.
use orteaf.Prelude.{Bool, ◌&&◌, Option, none, some, if◌then◌else◌}
use orteaf.SlotPool.{Handle}
use orteaf.ControlBlock.{
  acquire_strong, acquire_weak, release_strong, release_weak, can_shutdown,
  try_promote_weak_to_strong,
}
use orteaf.PoolManager.{Manager, ManagerTraits, payload_api}
use orteaf.PoolManager.Acquisition.{block_at, write_block, release_control_block}

abbrev pub Lease : Type 0
Lease = Option Handle

module _ {P R C W : Type 0} (t : ManagerTraits P R C W) where
  -- Whether the last reference is gone, so that the block goes back to its pool.
  abbrev pub give_back : Bool → Handle → Manager P W → Manager P W
  give_back last h m =
      if last && can_shutdown (payload_api t) (block_at t m h)
      then release_control_block t m h
      else m

  -- `StrongLease::release`. The lease is empty afterwards.
  unfoldable pub release_strong_lease : Lease → Manager P W → Lease × Manager P W
  unfolding block_at write_block release_control_block
  release_strong_lease none m = (none, m)
  release_strong_lease (some h) m =
      let (last, block, payloads) = release_strong (payload_api t) (block_at t m h) m.payloads in
      (none, give_back last h (write_block t (record m { payloads = payloads }) h block))

  -- `WeakLease::release`.
  unfoldable pub release_weak_lease : Lease → Manager P W → Lease × Manager P W
  unfolding block_at write_block release_control_block
  release_weak_lease none m = (none, m)
  release_weak_lease (some h) m =
      let (last, block) = release_weak (payload_api t) (block_at t m h) in
      (none, give_back last h (write_block t m h block))

  -- A copy, `copyFrom` of a strong lease.
  unfoldable pub copy_strong : Lease → Manager P W → Lease × Manager P W
  unfolding block_at write_block
  copy_strong none m = (none, m)
  copy_strong (some h) m =
      (some h, write_block t m h (acquire_strong (payload_api t) (block_at t m h)))

  -- `copyFrom` of a weak lease, and the constructor of a weak lease from a strong one.
  unfoldable pub copy_weak : Lease → Manager P W → Lease × Manager P W
  unfolding block_at write_block
  copy_weak none m = (none, m)
  copy_weak (some h) m = (some h, write_block t m h (acquire_weak (payload_api t) (block_at t m h)))

  -- `WeakLease::lock`: a strong lease of the same block, if it could be promoted.
  unfoldable pub lock : Lease → Manager P W → Lease × Manager P W
  unfolding block_at write_block
  lock none m = (none, m)
  lock (some h) m =
      let (promoted, block) = try_promote_weak_to_strong (payload_api t) (block_at t m h) in
      (if promoted then some h else none, write_block t m h block)
