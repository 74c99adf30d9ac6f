-- ===== src/SlotPool.antt =====
-- `SlotPool` of orteaf/include/orteaf/internal/base/pool/slot_pool.h, over the handles of
-- orteaf/include/orteaf/internal/base/handle.h. What the pool's traits provide is the record
-- `Traits`; `World` is whatever their hooks act on besides the payload.
--
-- The freelist's back is the head of the list. A created flag is a Boolean. A method that changes
-- the pool returns its result with the new pool; one that may throw returns a `Result` there. The
-- reserved capacity of the generation, flag and free vectors cannot be observed and is left out.
pub mod Acquire
pub mod Storage
pub mod Invariant
pub mod Scan
pub mod Lifetime
pub mod Clear
pub mod Reach
pub mod Examples
mod Tests
use orteaf.Prelude.{
  ℕ, zero, suc, ◌+◌, ◌-◌, ◌%◌, Bool, true, false, not, ◌&&◌, ◌||◌, Option, none, some, List, [],
  ◌∷◌, ◌++◌, ltb, leb, ◌==◌, if◌then◌else◌, length, get_elem?, get_or, set, replicate,
}
use orteaf.Diagnostics.{Errc, invalid_argument, out_of_range, Result, ok, err}
use orteaf.BlockVector
use orteaf.BlockVector.{BlockVector}

-- A handle without a generation field has generation 0 here.
pub record Handle : Type 0 where
  pub index : ℕ
  pub generation : ℕ

pub record Traits (Payload Request Context World : Type 0) : Type 0 where
  -- A value-initialised payload, request and context.
  pub fresh : Payload
  pub no_request : Request
  pub no_context : Context
  -- `Handle::has_generation`, the number of generations, and `Handle::invalid_index()`.
  pub has_generation : Bool
  pub generation_count : ℕ
  pub invalid_index : ℕ
  pub destroy_on_release : Bool
  -- `setHandleIfPresent`: the identity where the request has no handle field.
  pub set_handle : Request → Handle → Request
  pub create : Payload → Request → Context → World → Bool × Payload × World
  pub destroy : Payload → Request → Context → World → Payload × World

pub record SlotPool (Payload World : Type 0) : Type 0 where
  pub payloads : BlockVector Payload
  pub generations : List ℕ
  pub created : List Bool
  pub freelist : List ℕ
  pub world : World

unfoldable pub size : {P W : Type 0} → SlotPool P W → ℕ
unfolding BlockVector.size
size p = BlockVector.size p.payloads

module _ {P R C W : Type 0} (t : Traits P R C W) where
  abbrev pub invalid_handle : Handle
  invalid_handle = record { index = t.invalid_index; generation = t.generation_count - 1 }

  -- `Handle::isValid`.
  abbrev pub names_slot : Handle → Bool
  names_slot h = not (h.index == t.invalid_index)

  unfoldable pub is_valid : SlotPool P W → Handle → Bool
  unfolding size
  is_valid p h =
      if leb (size p) h.index
      then false
      else if t.has_generation
      then h.generation == get_or p.generations h.index 0
      else true

  unfoldable pub is_created : SlotPool P W → Handle → Bool
  is_created p h = if is_valid p h then get_or p.created h.index false else false

  unfoldable pub make_handle : SlotPool P W → ℕ → Handle
  make_handle p idx = record {
    index = idx;
    generation = if t.has_generation then get_or p.generations idx 0 else 0;
  }

  unfoldable pub set_created : SlotPool P W → Handle → Bool → SlotPool P W
  set_created p h flag =
      if is_valid p h then record p { created = set p.created h.index flag } else p

  unfoldable pub get : SlotPool P W → Handle → Option P
  get p h = if is_valid p h then get_elem? p.payloads.items h.index else none

  -- What a hook leaves in the payload of a slot and in the world.
  abbrev pub write_payload : SlotPool P W → ℕ → P → W → SlotPool P W
  write_payload p idx payload world = record p {
    payloads = record (p.payloads) { items = set p.payloads.items idx payload };
    world = world;
  }

  -- `emplace` with a caller's factory.
  unfoldable pub emplace_by :
      (P → R → C → W → Bool × P × W) → SlotPool P W → Handle → R → C → Bool × SlotPool P W
  emplace_by create p h request context =
      if not (is_valid p h) || is_created p h
      then (false, p)
      else let (made, payload, world) =
          create (get_or p.payloads.items h.index t.fresh) request context p.world in
        let q = write_payload p h.index payload world in
        (made, if made then set_created q h true else q)

  unfoldable pub emplace : SlotPool P W → Handle → R → C → Bool × SlotPool P W
  unfolding emplace_by
  emplace p h request context = emplace_by t.create p h request context

  -- `destroy` with a caller's function; one that returns `void` always reports success.
  unfoldable pub destroy_by :
      (P → R → C → W → Bool × P × W) → SlotPool P W → Handle → R → C → Bool × SlotPool P W
  destroy_by release p h request context =
      if not (is_valid p h) || not (is_created p h)
      then (false, p)
      else let (done, payload, world) =
          release (get_or p.payloads.items h.index t.fresh) request context p.world in
        let q = write_payload p h.index payload world in
        (done, if done then set_created q h false else q)

  -- `Traits::destroy` as a function that reports success.
  abbrev pub destroy_hook : P → R → C → W → Bool × P × W
  destroy_hook payload request context world =
      let (payload', world') = t.destroy payload request context world in (true, payload', world')

  unfoldable pub destroy : SlotPool P W → Handle → R → C → Bool × SlotPool P W
  unfolding destroy_by
  destroy p h request context = destroy_by destroy_hook p h request context
