-- ===== src/ControlBlock/Counting.antt =====
-- Balanced acquiring and releasing of a shared block, and its weak references.
use native.Mathlib.Nat.{zero-add}
use orteaf.Prelude.{
  ℕ, zero, suc, ◌+◌, ◌-◌, ◌%◌, ◌<◌, ◌≡◌, true, false, not, none, some, ◌==◌, if◌then◌else◌, arith,
}
use orteaf.ControlBlock.{
  PoolApi, Block, count_limit, can_bind_payload, clear_payload, acquire_strong, release_strong,
  release_weak, can_shutdown, try_promote_weak_to_strong,
}

module _ {Handle Pool : Type 0} (api : PoolApi Handle Pool) where
  unfoldable pub acquire_many : ℕ → Block Handle → Block Handle
  acquire_many zero b = b
  acquire_many (suc n) b = acquire_many n (acquire_strong api b)

  -- The first component counts the calls that saw the count drop to zero.
  unfoldable pub release_many : ℕ → Block Handle → Pool → ℕ × Block Handle × Pool
  release_many zero b pool = (0, b, pool)
  release_many (suc n) b pool =
      let (last, b', pool') = release_strong api b pool in
      let (seen, b'', pool'') = release_many n b' pool' in
      ((if last then 1 else 0) + seen, b'', pool'')

  acquire_many_lem :
      (n : ℕ) (b : Block Handle)
      → b.strong + n < count_limit
      → acquire_many n b ≡ record b { strong = b.strong + n }
  unfolding acquire_many acquire_strong
  acquire_many_lem zero b h = ground arith
  acquire_many_lem (suc n) b h =
      ground (arith, acquire_many_lem n (record b { strong = (b.strong + 1) % count_limit }))

  -- All but the last of the strong references go without touching payload and pool.
  release_many_lem :
      (n : ℕ) (b : Block Handle) (pool : Pool)
      → b.strong ≡ n + 1
      → release_many n b pool ≡ (0, record b { strong = 1 }, pool)
  unfolding release_many release_strong
  release_many_lem zero b pool e = ground arith
  release_many_lem (suc n) b pool e =
      ground (arith, release_many_lem n (record b { strong = b.strong - 1 }) pool)

  release_early :
      (b : Block Handle) (pool : Pool) (n : ℕ)
      → b.strong ≡ suc (suc n)
      → release_strong api b pool ≡ (false, record b { strong = b.strong - 1 }, pool)
  unfolding release_strong
  release_early b pool n e = ground arith

  pub release_last :
      (b : Block Handle) (pool : Pool)
      → b.strong ≡ 1
      → api.is_valid b.handle ≡ true
      → b.has_pool ≡ true
      → (api.release pool b.handle).0 ≡ true
      → release_strong api b pool
        ≡ (true, clear_payload api (record b { strong = 0 }), (api.release pool b.handle).1)
  unfolding release_strong
  release_last b pool e h p r = ground arith

  release_all :
      (n : ℕ) (b : Block Handle) (pool : Pool)
      → b.strong ≡ suc n
      → api.is_valid b.handle ≡ true
      → b.has_pool ≡ true
      → (api.release pool b.handle).0 ≡ true
      → release_many (suc n) b pool
        ≡ (1, clear_payload api (record b { strong = 0 }), (api.release pool b.handle).1)
  unfolding release_many
  release_all zero b pool e h p r = ground (arith, release_last b pool e h p r)
  release_all (suc n) b pool e h p r =
      let b' = record b { strong = b.strong - 1 } in
      rw (release_early b pool n e, zero-add) (release_all n b' pool (omega arith) h p r)

  -- A block with a valid handle and a pool that takes the handle back, and without strong
  -- references, is given `n + 1` of them, within the range of the count. It keeps payload and
  -- pool through the first `n` releases. The last one alone sees the count drop to zero: it
  -- releases the handle to the pool, once, and unbinds the payload.
  pub release-acquire_many :
      (n : ℕ) (b : Block Handle) (pool : Pool)
      → b.strong ≡ 0
      → n + 1 < count_limit
      → api.is_valid b.handle ≡ true
      → b.has_pool ≡ true
      → (api.release pool b.handle).0 ≡ true
      → let full = acquire_many (suc n) b in
        (release_many n full pool ≡ (0, record b { strong = 1 }, pool))
        × (release_many (suc n) full pool
            ≡ (1, clear_payload api (record b { strong = 0 }), (api.release pool b.handle).1))
  release-acquire_many n b pool e lim h p r =
      let full = record b { strong = b.strong + suc n } in
      rw (acquire_many_lem (suc n) b (omega arith))
        (release_many_lem n full pool (omega arith), release_all n full pool (omega arith) h p r)

  -- While strong references remain, dropping weak ones leaves the payload bound. Dropping the last
  -- weak reference unbinds it exactly if no strong one is left, and the block can be bound again
  -- exactly then. No promotion succeeds once the strong count is zero.
  pub release_weak-last :
      (b : Block Handle) (address : ℕ)
      → b.weak ≡ 1
      → b.payload ≡ some address
      → let b' = (release_weak api b).1 in
        ((release_weak api b).0 ≡ true)
        × (b'.payload ≡ (if b.strong == 0 then none else some address))
        × (can_bind_payload api b' ≡ (b.strong == 0))
        × (can_shutdown api b' ≡ (b.strong == 0))
        × ((try_promote_weak_to_strong api b').0 ≡ not (b.strong == 0))
  unfolding release_weak can_bind_payload try_promote_weak_to_strong
  release_weak-last b address w e = ground arith
