-- ===== src/FixedSlotStore.antt =====
-- `FixedSlotStore` of orteaf/include/orteaf/internal/base/pool/fixed_slot_store.h, over the handles
-- and the traits of `SlotPool`: slots that are addressed by their handles and never handed out
-- again. A method that changes the store returns its result with the new store; one that may throw
-- returns a `Result` there.
pub mod Storage
pub mod Cursor
pub mod Invariant
pub mod Sizing
pub mod History
pub mod Reserve
mod Tests
use orteaf.Prelude.{
  ℕ, zero, suc, ◌+◌, ◌-◌, Bool, true, false, not, ◌&&◌, ◌||◌, Option, none, some, List, ltb, leb,
  ◌==◌, if◌then◌else◌, get_elem?, get_or, set,
}
use orteaf.Diagnostics.{Errc, out_of_range, Result, ok, err}
use orteaf.BlockVector
use orteaf.BlockVector.{BlockVector}
use orteaf.SlotPool.{Handle, Traits, invalid_handle, names_slot, destroy_hook}

pub record FixedSlotStore (Payload World : Type 0) : Type 0 where
  pub payloads : BlockVector Payload
  pub generations : List ℕ
  pub created : List Bool
  pub next_uncreated_index : ℕ
  pub world : World

unfoldable pub size : {P W : Type 0} → FixedSlotStore P W → ℕ
unfolding BlockVector.size
size p = BlockVector.size p.payloads

-- The loop of `emplace` that moves `next_uncreated_index_` past created slots, by rounds left.
unfoldable pub advance : ℕ → ℕ → List Bool → ℕ → ℕ
advance zero slots created next = next
advance (suc rounds) slots created next =
    let rest = advance rounds slots created (next + 1) in
    if ltb next slots && get_or created next false then rest else next

module _ {P R C W : Type 0} (t : Traits P R C W) where
  unfoldable pub is_valid : FixedSlotStore P W → Handle → Bool
  unfolding size
  is_valid p h =
      if leb (size p) h.index
      then false
      else if t.has_generation
      then h.generation == get_or p.generations h.index 0
      else true

  unfoldable pub is_created : FixedSlotStore P W → Handle → Bool
  is_created p h = if is_valid p h then get_or p.created h.index false else false

  unfoldable pub make_handle : FixedSlotStore P W → ℕ → Handle
  make_handle p idx = record {
    index = idx;
    generation = if t.has_generation then get_or p.generations idx 0 else 0;
  }

  unfoldable pub set_created : FixedSlotStore P W → Handle → Bool → FixedSlotStore P W
  set_created p h flag =
      if is_valid p h then record p { created = set p.created h.index flag } else p

  unfoldable pub get : FixedSlotStore P W → Handle → Option P
  get p h =
      if not (is_valid p h) || not (is_created p h)
      then none
      else get_elem? p.payloads.items h.index

  -- What a hook leaves in the payload of a slot and in the world.
  abbrev pub write_payload : FixedSlotStore P W → ℕ → P → W → FixedSlotStore P W
  write_payload p idx payload world = record p {
    payloads = record (p.payloads) { items = set p.payloads.items idx payload };
    world = world;
  }

  abbrev pub skip_created : FixedSlotStore P W → FixedSlotStore P W
  skip_created p = record p {
    next_uncreated_index =
        advance (size p - p.next_uncreated_index) (size p) p.created p.next_uncreated_index;
  }

  abbrev pub note_generation : FixedSlotStore P W → Handle → FixedSlotStore P W
  note_generation p h = record p {
    generations =
        if t.has_generation then set p.generations h.index h.generation else p.generations;
  }

  -- `emplace` with a caller's factory.
  unfoldable pub emplace_by :
      (P → R → C → W → Bool × P × W)
      → FixedSlotStore P W
      → Handle
      → R
      → C
      → Bool × FixedSlotStore P W
  emplace_by create p h request context =
      if not (is_valid p h) || is_created p h
      then (false, p)
      else let (made, payload, world) =
          create (get_or p.payloads.items h.index t.fresh) request context p.world in
        let q = write_payload (note_generation p h) h.index payload world in
        (made, if made then skip_created (set_created q h true) else q)

  unfoldable pub emplace : FixedSlotStore P W → Handle → R → C → Bool × FixedSlotStore P W
  unfolding emplace_by
  emplace p h request context = emplace_by t.create p h request context

  -- `destroy` with a caller's function; one that returns `void` always reports success.
  unfoldable pub destroy_by :
      (P → R → C → W → Bool × P × W)
      → FixedSlotStore P W
      → Handle
      → R
      → C
      → Bool × FixedSlotStore P W
  destroy_by release p h request context =
      if not (is_valid p h) || not (is_created p h)
      then (false, p)
      else let (done, payload, world) =
          release (get_or p.payloads.items h.index t.fresh) request context p.world in
        let q = write_payload p h.index payload world in
        (done, if done then set_created q h false else q)

  unfoldable pub destroy : FixedSlotStore P W → Handle → R → C → Bool × FixedSlotStore P W
  unfolding destroy_by
  destroy p h request context = destroy_by (destroy_hook t) p h request context

  unfoldable pub try_acquire_created : FixedSlotStore P W → Handle
  try_acquire_created p =
      if p.next_uncreated_index == 0
      then invalid_handle t
      else if not (get_or p.created 0 false)
      then invalid_handle t
      else make_handle p 0

  unfoldable pub acquire_created : FixedSlotStore P W → Result Handle
  unfolding try_acquire_created
  acquire_created p =
      let h = try_acquire_created p in if names_slot t h then ok h else err out_of_range

  unfoldable pub try_reserve_uncreated : FixedSlotStore P W → Handle
  unfolding size
  try_reserve_uncreated p =
      if leb (size p) p.next_uncreated_index
      then invalid_handle t
      else if get_or p.created p.next_uncreated_index false
      then invalid_handle t
      else make_handle p p.next_uncreated_index

  unfoldable pub reserve_uncreated : FixedSlotStore P W → Result Handle
  unfolding try_reserve_uncreated
  reserve_uncreated p =
      let h = try_reserve_uncreated p in if names_slot t h then ok h else err out_of_range

  -- Nothing is handed out again: a release only checks the handle, or destroys the payload where
  -- the traits say so.
  unfoldable pub release_with : FixedSlotStore P W → Handle → R → C → Bool × FixedSlotStore P W
  unfolding destroy
  release_with p h request context =
      if not (is_valid p h)
      then (false, p)
      else if t.destroy_on_release
      then (if not (is_created p h) then (false, p) else destroy p h request context)
      else (true, p)

  unfoldable pub release : FixedSlotStore P W → Handle → Bool × FixedSlotStore P W
  unfolding release_with
  release p h =
      if t.destroy_on_release then release_with p h t.no_request t.no_context else (is_valid p h, p)
