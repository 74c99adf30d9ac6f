-- ===== src/PoolManager.antt =====
-- `PoolManager` of orteaf/include/orteaf/internal/base/manager/pool_manager.h: a payload pool and a pool
-- of control blocks, configured together, and the leases of payloads
-- (orteaf/include/orteaf/internal/base/lease/strong_lease.h and weak_lease.h).
--
-- The payload pool is a `SlotPool`, with the control block bindings of
-- pool/with_control_block_binding.h where `bindable` says so; the control blocks are shared ones
-- (control_block/shared.h) in a `SlotPool` with the traits of pool/default_control_block_pool_traits.h.
-- A payload's address is its slot's index: growth moves no payload. A call that throws leaves the
-- manager as it is at the throw. Names and messages are left out.
pub mod Action
pub mod Setup
pub mod Acquisition
pub mod Leases
pub mod Configuration
pub mod Shutdown
pub mod Blocks
pub mod Binding
pub mod Sharing
pub mod Release
mod Tests
use orteaf.Prelude.{
  ℕ, ◌+◌, ◌-◌, ◌≡◌, refl, Bool, true, false, not, ◌&&◌, Option, none, some, List, [], leb, ◌==◌,
  ◌++◌, if◌then◌else◌, length, get_or, set, replicate,
}
use orteaf.Diagnostics.{Result, ok, err}
use orteaf.SlotPool.{Handle, Traits, SlotPool, invalid_handle, names_slot, is_valid, size}
use orteaf.SlotPool.Acquire.{release}
use orteaf.SlotPool.Storage.{resize, clear}
use orteaf.ControlBlock.{PoolApi, Block, empty}

-- `ControlBlockHandle` has a 32-bit index and an 8-bit generation. `create` and `destroy` of
-- `DefaultControlBlockPoolTraits` do nothing; `invalid` is the payload handle of a new block.
unfoldable pub control_traits : Handle → Traits (Block Handle) (Unit {0}) (Unit {0}) (Unit {0})
control_traits invalid = record {
  fresh = record { strong = 0; weak = 0; handle = invalid; payload = none; has_pool = false };
  no_request = tt;
  no_context = tt;
  has_generation = true;
  generation_count = 256;
  invalid_index = 4294967295;
  destroy_on_release = false;
  set_handle = λ request handle. request;
  create = λ block request context world. (true, block, world);
  destroy = λ block request context world. (block, world);
}

-- The payload pool, with `bound_control_blocks_`.
pub record Payloads (P W : Type 0) : Type 0 where
  pub pool : SlotPool P W
  pub bound : List Handle

pub record Manager (P W : Type 0) : Type 0 where
  pub control_block_growth_chunk_size : ℕ
  pub payload_growth_chunk_size : ℕ
  pub control_block_block_size : ℕ
  pub payload_block_size : ℕ
  pub configured : Bool
  pub payloads : Payloads P W
  pub control_blocks : SlotPool (Block Handle) (Unit {0})

-- The traits of a manager: those of its payload pool, and whether that binds control blocks.
pub record ManagerTraits (P R C W : Type 0) : Type 0 where
  pub payload : Traits P R C W
  pub bindable : Bool

module _ {P R C W : Type 0} (t : ManagerTraits P R C W) where
  abbrev pub controls : Traits (Block Handle) (Unit {0}) (Unit {0}) (Unit {0})
  controls = control_traits (invalid_handle t.payload)

  abbrev pub invalid_control : Handle
  invalid_control = invalid_handle controls

  -- `hasBoundControlBlock`.
  unfoldable pub has_bound : Payloads P W → Handle → Bool
  unfolding control_traits
  has_bound p h =
      if not (is_valid t.payload p.pool h)
      then false
      else if leb (length p.bound) h.index
      then false
      else names_slot controls (get_or p.bound h.index invalid_control)

  -- `getBoundControlBlock`.
  unfoldable pub get_bound : Payloads P W → Handle → Handle
  get_bound p h =
      if not (is_valid t.payload p.pool h)
      then invalid_control
      else if leb (length p.bound) h.index
      then invalid_control
      else get_or p.bound h.index invalid_control

  -- `bindControlBlock`; `unbindControlBlock` binds the invalid handle. A write beyond the end of the
  -- bindings does nothing.
  unfoldable pub bind : Payloads P W → Handle → Handle → Payloads P W
  bind p h control =
      if not (is_valid t.payload p.pool h)
      then p
      else record p { bound = set p.bound h.index control }

  unfoldable pub unbind : Payloads P W → Handle → Payloads P W
  unfolding bind
  unbind p h = bind p h invalid_control

  -- `syncBoundControlBlocks`.
  unfoldable pub sync : Payloads P W → Payloads P W
  sync p = record p { bound = p.bound ++ replicate (size p.pool - length p.bound) invalid_control }

  abbrev pub sync_if_ok : Result ℕ → Payloads P W → Payloads P W
  sync_if_ok (ok old) p = if t.bindable then sync p else p
  sync_if_ok (err code) p = p

  unfoldable pub resize_payloads : Payloads P W → ℕ → Result ℕ × Payloads P W
  unfolding sync
  resize_payloads p n =
      let (result, pool) = resize t.payload p.pool n in
      (result, sync_if_ok result (record p { pool = pool }))

  unfoldable pub clear_payloads : Payloads P W → R → C → Payloads P W
  clear_payloads p request context = record {
    pool = clear t.payload p.pool request context;
    bound = if t.bindable then [] else p.bound;
  }

  unfoldable pub release_payload : Payloads P W → Handle → Bool × Payloads P W
  unfolding unbind
  release_payload p h =
      let q = if t.bindable then unbind p h else p in
      let (done, pool) = release t.payload q.pool h in (done, record q { pool = pool })

  -- The payload pool as its control blocks see it.
  abbrev pub payload_api : PoolApi Handle (Payloads P W)
  payload_api = record {
    invalid = invalid_handle t.payload;
    is_valid = names_slot t.payload;
    release = release_payload;
  }
