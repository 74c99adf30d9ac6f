-- ===== src/PoolManager/Setup.antt =====
-- Configuration and shutdown of `PoolManager`
-- (orteaf/include/orteaf/internal/base/manager/pool_manager.h).
use orteaf.Prelude.{ℕ, Bool, true, false, not, ◌&&◌, List, [], ◌∷◌, ◌==◌, if◌then◌else◌}
use orteaf.Diagnostics.{invalid_argument, invalid_state, Result, ok}
use orteaf.SlotPool.{Handle, SlotPool, size}
use orteaf.SlotPool.Storage.{resize, create_range, set_block_size, clear, for_each_created}
use orteaf.ControlBlock.{Block, can_shutdown, can_teardown}
use orteaf.PoolManager.{
  Manager, Payloads, ManagerTraits, controls, payload_api, resize_payloads, clear_payloads,
}
use orteaf.PoolManager.Action.{Action, ◌>>=◌, ◌>>◌, return, throw_if, modify}

-- Whether a test holds of every block that `forEachCreated` visits.
unfoldable pub all_blocks : (Block Handle → Bool) → List (ℕ × Block Handle) → Bool
all_blocks test [] = true
all_blocks test ((index, block) ∷ blocks) = if test block then all_blocks test blocks else false

-- The numbers that the builder passes to `configureImpl`.
pub record Capacities : Type 0 where
  pub control_block_capacity : ℕ
  pub control_block_block_size : ℕ
  pub control_block_growth_chunk_size : ℕ
  pub payload_capacity : ℕ
  pub payload_block_size : ℕ
  pub payload_growth_chunk_size : ℕ

module _ {P W : Type 0} where
  unfoldable pub ensure_configured : Action (Manager P W) (Unit {0})
  ensure_configured m = throw_if (not m.configured) invalid_state m

  unfoldable pub set_control_block_growth_chunk_size : ℕ → Action (Manager P W) (Unit {0})
  set_control_block_growth_chunk_size n = do
    throw_if (n == 0) invalid_argument
    modify (λ m. record m { control_block_growth_chunk_size = n })

  unfoldable pub set_payload_growth_chunk_size : ℕ → Action (Manager P W) (Unit {0})
  set_payload_growth_chunk_size n = do
    throw_if (n == 0) invalid_argument
    modify (λ m. record m { payload_growth_chunk_size = n })

  unfoldable pub validate_parameters : Capacities → Action (Manager P W) (Unit {0})
  validate_parameters c = do
    throw_if (c.control_block_block_size == 0) invalid_argument
    throw_if (c.control_block_growth_chunk_size == 0) invalid_argument
    throw_if (c.payload_growth_chunk_size == 0) invalid_argument
    throw_if (not (c.payload_capacity == 0) && c.payload_block_size == 0) invalid_argument

module _ {P R C W : Type 0} (t : ManagerTraits P R C W) where
  -- A call of the payload pool, and one of the control block pool.
  abbrev pub on_payloads :
      {A : Type 0} → (Payloads P W → Result A × Payloads P W) → Action (Manager P W) A
  on_payloads call m =
      let (result, payloads) = call m.payloads in (result, record m { payloads = payloads })

  abbrev pub on_controls :
      {A : Type 0}
      → (SlotPool (Block Handle) (Unit {0}) → Result A × SlotPool (Block Handle) (Unit {0}))
      → Action (Manager P W) A
  on_controls call m =
      let (result, blocks) = call m.control_blocks in (result, record m { control_blocks = blocks })

  -- A call of the payload pool that does not concern its bindings.
  abbrev pub on_pool :
      {A : Type 0}
      → (SlotPool P W → Result A × SlotPool P W)
      → Payloads P W
      → Result A × Payloads P W
  on_pool call p = let (result, pool) = call p.pool in (result, record p { pool = pool })

  -- `checkCanShutdownOrThrow`.
  unfoldable pub check_can_shutdown : Action (Manager P W) (Unit {0})
  unfolding all_blocks
  check_can_shutdown m =
      throw_if (not (all_blocks (can_shutdown (payload_api t)) (for_each_created m.control_blocks)))
        invalid_state m

  -- `checkCanTeardownOrThrow`.
  unfoldable pub check_can_teardown : Action (Manager P W) (Unit {0})
  unfolding all_blocks
  check_can_teardown m =
      throw_if (not (all_blocks (can_teardown (payload_api t)) (for_each_created m.control_blocks)))
        invalid_state m

  unfoldable pub set_control_block_block_size : ℕ → Action (Manager P W) ℕ
  unfolding check_can_shutdown
  set_control_block_block_size n m =
      (do
        throw_if (n == 0) invalid_argument
        if not (m.control_block_block_size == 0) && not (m.control_block_block_size == n)
            then check_can_shutdown
            else return tt
        modify (λ m'. record m' { control_block_block_size = n })
        on_controls (λ blocks. set_block_size (controls t) blocks n))
        m

  unfoldable pub set_payload_block_size : ℕ → Action (Manager P W) ℕ
  unfolding check_can_teardown
  set_payload_block_size n m =
      (do
        throw_if (n == 0) invalid_argument
        if not (m.payload_block_size == 0) && not (m.payload_block_size == n)
            then check_can_teardown
            else return tt
        modify (λ m'. record m' { payload_block_size = n })
        on_payloads (on_pool (λ pool. set_block_size t.payload pool n)))
        m

  unfoldable pub shutdown_payload_pool : R → C → Action (Manager P W) (Unit {0})
  unfolding check_can_teardown clear_payloads
  shutdown_payload_pool request context = do
    check_can_teardown
    modify (λ m. record m { payloads = clear_payloads t m.payloads request context })

  unfoldable pub shutdown_control_block_pool : Action (Manager P W) (Unit {0})
  unfolding check_can_shutdown
  shutdown_control_block_pool = do
    check_can_shutdown
    modify (λ m. record m { control_blocks = clear (controls t) m.control_blocks tt tt })

  unfoldable pub shutdown : R → C → Action (Manager P W) (Unit {0})
  unfolding shutdown_payload_pool shutdown_control_block_pool
  shutdown request context m =
      if not m.configured
      then (ok tt, m)
      else (do
        shutdown_payload_pool request context
        shutdown_control_block_pool
        modify (λ m'. record m' { configured = false }))
          m

  unfoldable pub apply_control_block_config : ℕ → ℕ → Action (Manager P W) (Unit {0})
  unfolding set_control_block_block_size
  apply_control_block_config capacity block_size = do
    set_control_block_block_size block_size
    old ← on_controls (λ blocks. resize (controls t) blocks capacity)
    all ← on_controls (λ blocks. create_range (controls t) blocks old (size blocks) tt tt)
    throw_if (not all) invalid_state

  -- `configureImpl`, which `Builder::configure` calls.
  unfoldable pub configure : Capacities → R → C → Action (Manager P W) (Unit {0})
  unfolding validate_parameters shutdown_payload_pool set_payload_block_size
      apply_control_block_config set_control_block_growth_chunk_size set_payload_growth_chunk_size
      resize_payloads
  configure c request context m =
      (do
        validate_parameters c
        if m.configured
              && (not (m.payload_block_size == c.payload_block_size)
                  && not (c.payload_block_size == 0))
            then shutdown_payload_pool request context
            else return tt
        set_payload_block_size c.payload_block_size
        on_payloads (λ p. resize_payloads t p c.payload_capacity)
        apply_control_block_config c.control_block_capacity c.control_block_block_size
        set_control_block_growth_chunk_size c.control_block_growth_chunk_size
        set_payload_growth_chunk_size c.payload_growth_chunk_size
        modify (λ m'. record m' { configured = true }))
        m
