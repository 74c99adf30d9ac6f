-- ===== src/ControlBlock.antt =====
-- The control blocks of orteaf/include/orteaf/internal/base/lease/control_block: `SharedControlBlock`
-- (shared.h) here, with strong and weak counts, and `StrongControlBlock` (strong.h) in a child.
--
-- A block points to the payload and the pool of its handle. The payload's address is a number. The
-- pool, which the block shares with others, is a part of the state beside the block: a method takes
-- it and returns it. Here a method is one atomic step; `Races` splits the compare-and-swap loops
-- into the steps of several threads.
pub mod Strong
pub mod Counting
pub mod Races
pub mod Pooled
mod Tests
use orteaf.Prelude.{
  ℕ, ◌+◌, ◌-◌, ◌%◌, ◌^◌, Bool, true, false, not, ◌&&◌, Option, none, some, ◌==◌, if◌then◌else◌,
}

-- What a block needs of the type of handles and of the pool.
pub record PoolApi (Handle Pool : Type 0) : Type 0 where
  pub invalid : Handle
  pub is_valid : Handle → Bool
  pub release : Pool → Handle → Bool × Pool

-- `std::uint32_t` counts wrap round.
abbrev pub count_limit : ℕ
count_limit = 2 ^ 32

abbrev pub is_null : {A : Type 0} → Option A → Bool
is_null none = true
is_null (some a) = false

pub record Block (Handle : Type 0) : Type 0 where
  pub strong : ℕ
  pub weak : ℕ
  pub handle : Handle
  pub payload : Option ℕ
  -- Whether `payload_pool_` points to the pool; otherwise it is null.
  pub has_pool : Bool

module _ {Handle Pool : Type 0} (api : PoolApi Handle Pool) where
  pub empty : Block Handle
  empty = record { strong = 0; weak = 0; handle = api.invalid; payload = none; has_pool = false }

  unfoldable pub can_bind_payload : Block Handle → Bool
  can_bind_payload b = is_null b.payload && (b.strong == 0 && b.weak == 0)

  unfoldable pub try_bind_payload : Block Handle → Handle → Option ℕ → Bool → Bool × Block Handle
  unfolding can_bind_payload
  try_bind_payload b handle payload has_pool =
      if can_bind_payload b
      then (true, record b { handle = handle; payload = payload; has_pool = has_pool })
      else (false, b)

  abbrev pub clear_payload : Block Handle → Block Handle
  clear_payload b = record b { handle = api.invalid; payload = none; has_pool = false }

  unfoldable pub acquire_strong : Block Handle → Block Handle
  acquire_strong b = record b { strong = (b.strong + 1) % count_limit }

  unfoldable pub acquire_weak : Block Handle → Block Handle
  acquire_weak b = record b { weak = (b.weak + 1) % count_limit }

  unfoldable pub try_release_payload : Block Handle → Pool → Block Handle × Pool
  try_release_payload b pool =
      if not (api.is_valid b.handle)
      then (b, pool)
      else if not b.has_pool
      then (clear_payload b, pool)
      else let (done, pool') = api.release pool b.handle in
        (if done then clear_payload b else b, pool')

  unfoldable pub release_strong : Block Handle → Pool → Bool × Block Handle × Pool
  unfolding try_release_payload
  release_strong b pool =
      if b.strong == 0
      then (false, b, pool)
      else let b' = record b { strong = b.strong - 1 } in
        if b.strong == 1
        then (let (b'', pool') = try_release_payload b' pool in (true, b'', pool'))
        else (false, b', pool)

  unfoldable pub can_shutdown : Block Handle → Bool
  can_shutdown b = b.strong == 0 && b.weak == 0

  unfoldable pub can_teardown : Block Handle → Bool
  can_teardown b = b.strong == 0

  unfoldable pub release_weak : Block Handle → Bool × Block Handle
  unfolding can_shutdown
  release_weak b =
      if b.weak == 0
      then (false, b)
      else let b' = record b { weak = b.weak - 1 } in
        if b.weak == 1
        then (true, if can_shutdown b' then clear_payload b' else b')
        else (false, b')

  unfoldable pub try_promote_weak_to_strong : Block Handle → Bool × Block Handle
  try_promote_weak_to_strong b =
      if b.strong == 0
      then (false, b)
      else (true, record b { strong = (b.strong + 1) % count_limit })
