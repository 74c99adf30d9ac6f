-- ===== src/FixedSlotStore/Storage.antt =====
-- The methods of `FixedSlotStore` that work on all slots: sizing, creating a range, clearing.
use orteaf.Prelude.{
  ℕ, zero, suc, ◌+◌, ◌-◌, Bool, true, false, ◌||◌, [], ◌++◌, ltb, ◌==◌, if◌then◌else◌, length,
  get_or, replicate,
}
use orteaf.Diagnostics.{invalid_argument, Result, ok, err}
use orteaf.BlockVector
use orteaf.SlotPool.{Traits}
use orteaf.FixedSlotStore.{FixedSlotStore, size, make_handle, emplace, destroy}

module _ {P R C W : Type 0} (t : Traits P R C W) where
  -- The previous block size.
  unfoldable pub set_block_size : FixedSlotStore P W → ℕ → Result ℕ × FixedSlotStore P W
  set_block_size p block_size = if block_size == 0 then (err invalid_argument, p) else (
    ok p.payloads.block_size,
    record p {
      payloads =
          if p.payloads.block_size == block_size
          then p.payloads
          else BlockVector.kept_or p.payloads (BlockVector.resize_blocks p.payloads block_size);
    },
  )

  unfoldable pub reserve : FixedSlotStore P W → ℕ → Result (Unit {0}) × FixedSlotStore P W
  reserve p new_capacity =
      if ltb t.invalid_index new_capacity
      then (err invalid_argument, p)
      else (ok tt, record p { payloads = BlockVector.reserve p.payloads new_capacity })

  -- The previous size. New slots are uncreated and of generation 0; the cursor stays.
  unfoldable pub resize : FixedSlotStore P W → ℕ → Result ℕ × FixedSlotStore P W
  unfolding size
  resize p new_size =
      if ltb new_size (size p)
      then (err invalid_argument, p)
      else if ltb t.invalid_index new_size
      then (err invalid_argument, p)
      else if new_size == size p
      then (ok (size p), p)
      else (
        ok (size p),
        record p {
          payloads = BlockVector.resize t.fresh p.payloads new_size;
          generations = p.generations ++ replicate (new_size - length p.generations) 0;
          created = p.created ++ replicate (new_size - length p.created) false;
        },
      )

  -- Slots from `idx` on, by rounds left; a failure is remembered and the loop goes on.
  unfoldable pub create_slots :
      ℕ → ℕ → Bool → R → C → FixedSlotStore P W → Bool × FixedSlotStore P W
  create_slots zero idx all request context p = (all, p)
  create_slots (suc rounds) idx all request context p =
      let h = make_handle t p idx in
      let (made, q) = emplace t p h (t.set_handle request h) context in
      create_slots rounds (idx + 1) (if made then all else false) request context q

  unfoldable pub create_range :
      FixedSlotStore P W → ℕ → ℕ → R → C → Result Bool × FixedSlotStore P W
  unfolding size create_slots
  create_range p start end request context =
      if ltb end start || ltb (size p) end
      then (err invalid_argument, p)
      else let (all, q) = create_slots (end - start) start true request context p in (ok all, q)

  unfoldable pub create_all : FixedSlotStore P W → R → C → Result Bool × FixedSlotStore P W
  unfolding create_range
  create_all p request context = create_range p 0 (size p) request context

  unfoldable pub destroy_slots : ℕ → ℕ → R → C → FixedSlotStore P W → FixedSlotStore P W
  destroy_slots zero idx request context p = p
  destroy_slots (suc rounds) idx request context p =
      let q =
        if get_or p.created idx false
        then (destroy t p (make_handle t p idx) request context).1
        else p in
      destroy_slots rounds (idx + 1) request context q

  unfoldable pub clear : FixedSlotStore P W → R → C → FixedSlotStore P W
  unfolding destroy_slots
  clear p request context =
      let q = destroy_slots (size p) 0 request context p in
      record q {
        payloads = BlockVector.clear q.payloads;
        generations = [];
        created = [];
        next_uncreated_index = 0;
      }
