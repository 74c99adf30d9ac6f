-- ===== src/ControlBlock/Strong.antt =====
-- `StrongControlBlock` of orteaf/include/orteaf/internal/base/lease/control_block/strong.h: one
-- count, otherwise as the shared block.
use orteaf.Prelude.{
  ℕ, ◌+◌, ◌-◌, ◌%◌, ◌≡◌, refl, Bool, true, false, not, ◌&&◌, Option, none, ◌==◌, if◌then◌else◌,
  arith,
}
use orteaf.ControlBlock
use orteaf.ControlBlock.{PoolApi, count_limit, is_null, Block}

pub record StrongBlock (Handle : Type 0) : Type 0 where
  pub strong : ℕ
  pub handle : Handle
  pub payload : Option ℕ
  pub has_pool : Bool

module _ {Handle Pool : Type 0} (api : PoolApi Handle Pool) where
  pub can_bind_payload : StrongBlock Handle → Bool
  can_bind_payload b = is_null b.payload && b.strong == 0

  pub try_bind_payload : StrongBlock Handle → Handle → Option ℕ → Bool → Bool × StrongBlock Handle
  unfolding can_bind_payload
  try_bind_payload b handle payload has_pool =
      if can_bind_payload b
      then (true, record b { handle = handle; payload = payload; has_pool = has_pool })
      else (false, b)

  clear_payload : StrongBlock Handle → StrongBlock Handle
  clear_payload b = record b { handle = api.invalid; payload = none; has_pool = false }

  pub acquire_strong : StrongBlock Handle → StrongBlock Handle
  acquire_strong b = record b { strong = (b.strong + 1) % count_limit }

  try_release_payload : StrongBlock Handle → Pool → StrongBlock Handle × Pool
  unfolding clear_payload
  try_release_payload b pool =
      if not (api.is_valid b.handle)
      then (b, pool)
      else if not b.has_pool
      then (clear_payload b, pool)
      else let (done, pool') = api.release pool b.handle in
        (if done then clear_payload b else b, pool')

  pub release_strong : StrongBlock Handle → Pool → Bool × StrongBlock Handle × Pool
  unfolding try_release_payload
  release_strong b pool =
      if b.strong == 0
      then (false, b, pool)
      else let b' = record b { strong = b.strong - 1 } in
        if b.strong == 1
        then (let (b'', pool') = try_release_payload b' pool in (true, b'', pool'))
        else (false, b', pool)

  pub can_shutdown : StrongBlock Handle → Bool
  can_shutdown b = b.strong == 0

  -- A strong block as a shared block without weak references.
  pub as_shared : StrongBlock Handle → Block Handle
  as_shared b = record {
    strong = b.strong;
    weak = 0;
    handle = b.handle;
    payload = b.payload;
    has_pool = b.has_pool;
  }

  -- The strong block behaves as a shared block that has no weak references: binding, acquiring and
  -- releasing give the same results, the same pool and the same block, and it can be bound or shut
  -- down exactly when the shared block can.
  pub as_shared_refines :
      (b : StrongBlock Handle) (pool : Pool) (handle : Handle) (payload : Option ℕ)
      (has_pool : Bool)
      → let s = as_shared b in
        ((can_bind_payload b ≡ ControlBlock.can_bind_payload api s)
          × (can_shutdown b ≡ ControlBlock.can_shutdown api s)
          × (as_shared (acquire_strong b) ≡ ControlBlock.acquire_strong api s)
          × ((let (done, b') = try_bind_payload b handle payload has_pool in (done, as_shared b'))
              ≡ ControlBlock.try_bind_payload api s handle payload has_pool)
          × ((let (last, b', pool') = release_strong b pool in (last, as_shared b', pool'))
              ≡ ControlBlock.release_strong api s pool))
  unfolding as_shared can_bind_payload can_shutdown acquire_strong try_bind_payload release_strong
      ControlBlock.can_bind_payload ControlBlock.can_shutdown ControlBlock.acquire_strong
      ControlBlock.try_bind_payload ControlBlock.release_strong
  as_shared_refines b pool handle payload has_pool =
      (ground arith, ground arith, refl, ground arith, ground arith)
