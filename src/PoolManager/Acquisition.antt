-- ===== src/PoolManager/Acquisition.antt =====
-- Growth and acquisition in `PoolManager` (orteaf/include/orteaf/internal/base/manager/pool_manager.h):
-- payload slots, control blocks, and leases of payloads.
use orteaf.Prelude.{
  ℕ, ◌+◌, Bool, true, false, not, ◌&&◌, Option, none, some, ◌==◌, if◌then◌else◌, get_or, set,
}
use orteaf.Diagnostics.{invalid_argument, invalid_state, out_of_range, Result, ok, err}
use orteaf.SlotPool.{Handle, size, names_slot, is_valid, is_created, get, emplace}
use orteaf.SlotPool.Acquire.{try_acquire_created, try_reserve_uncreated, release}
use orteaf.SlotPool.Storage.{resize, create_range, create_all}
use orteaf.ControlBlock.{Block, try_bind_payload, acquire_strong, acquire_weak}
use orteaf.PoolManager.{
  Manager, ManagerTraits, controls, payload_api, has_bound, get_bound, bind, unbind,
  resize_payloads,
}
use orteaf.PoolManager.Action.{Action, ◌>>=◌, ◌>>◌, return, throw_if}
use orteaf.PoolManager.Setup.{ensure_configured, on_payloads, on_controls, on_pool}

-- A call of a pool that does not throw.
abbrev pub quietly : {A B : Type 0} → (A → B × A) → A → Result B × A
quietly call a = let (b, a') = call a in (ok b, a')

abbrev pub is_some : {A : Type 0} → Option A → Bool
is_some none = false
is_some (some a) = true

module _ {P R C W : Type 0} (t : ManagerTraits P R C W) where
  unfoldable pub is_alive : Manager P W → Handle → Bool
  is_alive m h =
      m.configured
      && (is_valid t.payload m.payloads.pool h && is_created t.payload m.payloads.pool h)

  unfoldable pub create_all_payloads : R → C → Action (Manager P W) Bool
  create_all_payloads request context =
      on_payloads t (on_pool t (λ pool. create_all t.payload pool request context))

  unfoldable pub emplace_payload : Handle → R → C → Action (Manager P W) Bool
  emplace_payload h request context = on_payloads t (
      on_pool t
        (λ pool. let (made, pool') = emplace t.payload pool h request context in (ok made, pool')))

  unfoldable pub grow_payload_pool_by : ℕ → Action (Manager P W) ℕ
  unfolding resize_payloads
  grow_payload_pool_by n m =
      if n == 0
      then (ok (size m.payloads.pool), m)
      else (do
        on_payloads t (λ p. resize_payloads t p (size m.payloads.pool + n))
        return (size m.payloads.pool + n))
          m

  unfoldable pub grow_payload_pool_by_and_create : ℕ → R → C → Action (Manager P W) Bool
  unfolding grow_payload_pool_by
  grow_payload_pool_by_and_create n request context m =
      let old = size m.payloads.pool in
      (do
        new ← grow_payload_pool_by n
        if new == old
            then return true
            else on_payloads t
                (on_pool t (λ pool. create_range t.payload pool old (size pool) request context)))
        m

  unfoldable pub acquire_payload_or_grow_and_create : R → C → Action (Manager P W) Handle
  unfolding grow_payload_pool_by_and_create
  acquire_payload_or_grow_and_create request context m =
      (do
        h ← on_payloads t (on_pool t (quietly (try_acquire_created t.payload)))
        if names_slot t.payload h then return h else do
          made ← grow_payload_pool_by_and_create m.payload_growth_chunk_size request context
          throw_if (not made) invalid_state
          on_payloads t (on_pool t (quietly (try_acquire_created t.payload))))
        m

  unfoldable pub reserve_uncreated_payload_or_grow : Action (Manager P W) Handle
  unfolding grow_payload_pool_by
  reserve_uncreated_payload_or_grow m =
      (do
        h ← on_payloads t (on_pool t (quietly (try_reserve_uncreated t.payload)))
        if names_slot t.payload h then return h else do
          grow_payload_pool_by m.payload_growth_chunk_size
          on_payloads t (on_pool t (quietly (try_reserve_uncreated t.payload))))
        m

  -- The result of `createRange` is not looked at.
  unfoldable pub grow_control_block_pool : Action (Manager P W) (Unit {0})
  grow_control_block_pool m =
      (do
        throw_if (m.control_block_block_size == 0) invalid_state
        old ← on_controls t (λ blocks.
            resize (controls t) blocks (size m.control_blocks + m.control_block_growth_chunk_size))
        on_controls t (λ blocks. create_range (controls t) blocks old (size blocks) tt tt)
        return tt)
        m

  -- `tryAcquireCreated` of the control block pool.
  unfoldable pub try_control_block : Action (Manager P W) Handle
  try_control_block = on_controls t (quietly (try_acquire_created (controls t)))

  -- A second try, after growth, unless the first one gave a handle.
  unfoldable pub retry_control_block : Handle → Action (Manager P W) Handle
  unfolding try_control_block grow_control_block_pool
  retry_control_block h =
      if names_slot (controls t) h then return h else do grow_control_block_pool; try_control_block

  unfoldable pub acquire_control_block : Action (Manager P W) Handle
  unfolding retry_control_block
  acquire_control_block = do
    first ← try_control_block
    h ← retry_control_block first
    throw_if (not (names_slot (controls t) h)) out_of_range
    return h

  -- `releaseControlBlock`.
  unfoldable pub release_control_block : Manager P W → Handle → Manager P W
  release_control_block m h = record m {
    control_blocks = (release (controls t) m.control_blocks h).1;
  }

  -- The block that a pointer obtained for a handle points to, and a write through the pointer.
  unfoldable pub block_at : Manager P W → Handle → Block Handle
  block_at m h = get_or m.control_blocks.payloads.items h.index (controls t).fresh

  unfoldable pub write_block : Manager P W → Handle → Block Handle → Manager P W
  write_block m h block = record m {
    control_blocks = record (m.control_blocks) {
      payloads = record (m.control_blocks.payloads) {
        items = set m.control_blocks.payloads.items h.index block;
      };
    };
  }

  -- Whether the lease is a strong or a weak one.
  abbrev pub count_reference : Bool → Block Handle → Block Handle
  count_reference true block = acquire_strong (payload_api t) block
  count_reference false block = acquire_weak (payload_api t) block

  -- The constructor of a lease counts the reference.
  unfoldable pub make_lease : Bool → Handle → Action (Manager P W) Handle
  unfolding block_at write_block
  make_lease strong control m =
      (ok control, write_block m control (count_reference strong (block_at m control)))

  -- `tryBindPayload` of a new block, which is given back if it refuses.
  unfoldable pub bind_new_block : Handle → Handle → Action (Manager P W) (Unit {0})
  unfolding block_at write_block release_control_block
  bind_new_block h control m =
      let (bound, block) =
        try_bind_payload (payload_api t) (block_at m control) h (some h.index) true in
      if bound
      then (
        ok tt,
        let m' = write_block m control block in
            if t.bindable then record m' { payloads = bind t m'.payloads h control } else m',
      )
      else (err invalid_state, release_control_block m control)

  -- The rest of `acquireLeaseImpl` when the payload has no usable block.
  unfoldable pub acquire_new : Bool → Handle → Action (Manager P W) Handle
  unfolding acquire_control_block bind_new_block make_lease
  acquire_new strong h = do
    control ← acquire_control_block
    bind_new_block h control
    make_lease strong control

  -- A payload whose block is gone is unbound first.
  unfoldable pub acquire_bound : Bool → Handle → Action (Manager P W) Handle
  unfolding acquire_new make_lease
  acquire_bound strong h m =
      let control = get_bound t m.payloads h in
      if is_some (get (controls t) m.control_blocks control)
      then make_lease strong control m
      else acquire_new strong h (record m { payloads = unbind t m.payloads h })

  -- The checks of `acquireLeaseImpl`.
  unfoldable pub check_payload : Handle → Action (Manager P W) (Unit {0})
  unfolding ensure_configured
  check_payload h m =
      (do
        ensure_configured
        throw_if (not (is_valid t.payload m.payloads.pool h)) invalid_argument
        throw_if (not (is_created t.payload m.payloads.pool h)) invalid_state
        throw_if (not (is_some (get t.payload m.payloads.pool h))) invalid_state)
        m

  unfoldable pub lease_of : Bool → Handle → Action (Manager P W) Handle
  unfolding acquire_new acquire_bound
  lease_of strong h m =
      if t.bindable && has_bound t m.payloads h
      then acquire_bound strong h m
      else acquire_new strong h m

  -- `acquireLeaseImpl`, for a strong or a weak lease.
  unfoldable pub acquire_lease : Bool → Handle → Action (Manager P W) Handle
  unfolding check_payload lease_of
  acquire_lease strong h = do check_payload h; lease_of strong h
