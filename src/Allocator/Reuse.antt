-- ===== src/Allocator/Reuse.antt =====
-- Blocks that wait for the device before they are used again:
-- orteaf/include/orteaf/internal/execution/allocator/policies/reuse/deferred_reuse_policy.h. The clock is
-- an argument, in the ticks of `steady_clock`, and a token of the device is a number.
use orteaf.Prelude.{
  ℕ, suc, ◌+◌, ◌-◌, Bool, true, not, List, [], ◌∷◌, ◌++◌, Option, none, some, ltb, ◌==◌,
  if◌then◌else◌, length,
}
use orteaf.Diagnostics.{Result, ok, ◌>>◌, throw_if, null_pointer, invalid_state}
use orteaf.Allocator.{BufferBlock}

pub record PendingReuse : Type 0 where
  pub block : BufferBlock
  pub reuse_token : ℕ
  pub freelist_index : ℕ
  pub timestamp : ℕ

pub record ReadyReuse : Type 0 where
  pub block : BufferBlock
  pub freelist_index : ℕ

-- The pending queue in its order; the back of the ready queue is the head of its list.
pub record ReusePolicy : Type 0 where
  pub pending_queue : List PendingReuse
  pub ready_queue : List ReadyReuse
  pub timeout : ℕ
  pub has_resource : Bool

unfoldable pub initialize : Bool → ℕ → ReusePolicy → Result ReusePolicy
initialize resource timeout p =
    throw_if (not resource) null_pointer >> ok (record p { has_resource = true; timeout = timeout })

unfoldable pub schedule_for_reuse : ReusePolicy → BufferBlock → ℕ → ℕ → ℕ → Result ReusePolicy
schedule_for_reuse p block token freelist_index now =
    let item : PendingReuse = record {
      block = block;
      reuse_token = token;
      freelist_index = freelist_index;
      timestamp = now;
    } in
    throw_if (not p.has_resource) invalid_state
    >> ok (record p { pending_queue = p.pending_queue ++ (item ∷ []) })

-- An item that has timed out and is not completed stays, with a new timestamp.
unfoldable pub refresh : ℕ → ℕ → PendingReuse → PendingReuse
refresh timeout now item =
    if ltb timeout (now - item.timestamp) then record item { timestamp = now } else item

abbrev pub to_ready : PendingReuse → ReadyReuse
to_ready item = record { block = item.block; freelist_index = item.freelist_index }

-- The loop of `processPending`: what stays, the ready queue, and the count.
unfoldable pub process_loop :
    (ℕ → Bool)
    → ℕ
    → ℕ
    → List PendingReuse
    → List ReadyReuse
    → List PendingReuse × List ReadyReuse × ℕ
process_loop completed timeout now [] ready = ([], ready, 0)
process_loop completed timeout now (item ∷ rest) ready =
    let done = completed (item.reuse_token) in
    let r =
      process_loop completed timeout now rest (if done then to_ready item ∷ ready else ready) in
    if done then (r.0, r.1, suc r.2) else (refresh timeout now item ∷ r.0, r.1, r.2)

unfoldable pub process_pending : (ℕ → Bool) → ℕ → ReusePolicy → Result (ℕ × ReusePolicy)
process_pending completed now p =
    let r = process_loop completed p.timeout now p.pending_queue p.ready_queue in
    throw_if (not p.has_resource) invalid_state
    >> ok (r.2, record p { pending_queue = r.0; ready_queue = r.1 })

abbrev pub has_pending : ReusePolicy → Bool
has_pending p = not (length p.pending_queue == 0)

abbrev pub get_pending_reuse_count : ReusePolicy → ℕ
get_pending_reuse_count p = length p.pending_queue + length p.ready_queue

unfoldable pub get_ready_item : ReusePolicy → Option (ReadyReuse × ReusePolicy)
get_ready_item p = elim (p.ready_queue) [
  | [] ↦ none
  | item ∷ rest ↦ some (item, record p { ready_queue = rest })
]

unfoldable pub filter_pending : ℕ → List PendingReuse → List PendingReuse
filter_pending chunk_handle [] = []
filter_pending chunk_handle (item ∷ rest) =
    let kept = filter_pending chunk_handle rest in
    let block = item.block in if block.handle == chunk_handle then kept else item ∷ kept

unfoldable pub filter_ready : ℕ → List ReadyReuse → List ReadyReuse
filter_ready chunk_handle [] = []
filter_ready chunk_handle (item ∷ rest) =
    let kept = filter_ready chunk_handle rest in
    let block = item.block in if block.handle == chunk_handle then kept else item ∷ kept

unfoldable pub remove_blocks_in_chunk : ReusePolicy → ℕ → ReusePolicy
remove_blocks_in_chunk p chunk_handle = record p {
  pending_queue = filter_pending chunk_handle p.pending_queue;
  ready_queue = filter_ready chunk_handle p.ready_queue;
}

abbrev pub set_timeout : ℕ → ReusePolicy → ReusePolicy
set_timeout timeout p = record p { timeout = timeout }
