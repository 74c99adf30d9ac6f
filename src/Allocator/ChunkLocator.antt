-- ===== src/Allocator/ChunkLocator.antt =====
-- The chunk table of
-- orteaf/include/orteaf/internal/execution/allocator/policies/chunk_locator/direct_chunk_locator.h.
-- The back of a `HeapVector` used as a stack is the head of the list.
use Prim.Native.Nat.{bit_and}
use orteaf.Prelude.{
  ℕ, ◌+◌, ◌-◌, ◌%◌, ◌^◌, Bool, true, false, not, ◌&&◌, ◌||◌, List, [], ◌∷◌, ◌++◌, ltb, leb, ◌==◌,
  if◌then◌else◌, length, get_or, set,
}
use orteaf.Diagnostics.{Result, ok, ◌>>◌, throw_if, null_pointer, invalid_state, invalid_parameter}
use orteaf.Allocator.{View, no_view, is_empty, BufferBlock, no_block, invalid_handle, Resource}

pub record ChunkInfo : Type 0 where
  pub base : View
  pub size : ℕ
  pub alignment : ℕ
  pub used : ℕ
  pub pending : ℕ
  pub alive : Bool

-- `ChunkInfo{}`.
abbrev pub no_chunk : ChunkInfo
no_chunk = record { base = no_view; size = 0; alignment = 0; used = 0; pending = 0; alive = false }

-- `has_resource` is `resource_ != nullptr`.
pub record ChunkLocator : Type 0 where
  pub has_resource : Bool
  pub chunks : List ChunkInfo
  pub free_list : List ℕ

-- `kChunkMask`, and the conversion of a slot to the 32 bits of a handle.
abbrev pub chunk_mask : ℕ
chunk_mask = 2 ^ 31 - 1

unfoldable pub encode_id : ℕ → ℕ
encode_id slot = bit_and (slot % 2 ^ 32) chunk_mask

unfoldable pub index_from_id : ℕ → ℕ
index_from_id handle = bit_and handle chunk_mask

abbrev pub chunk_at : ChunkLocator → ℕ → ChunkInfo
chunk_at l slot = get_or l.chunks slot no_chunk

-- Whether `find` returns a chunk.
unfoldable pub finds : ChunkLocator → ℕ → Bool
finds l handle =
    ltb (index_from_id handle) (length l.chunks) && (chunk_at l (index_from_id handle)).alive

abbrev pub put_chunk : ChunkLocator → ℕ → ChunkInfo → ChunkLocator
put_chunk l slot c = record l { chunks = set l.chunks slot c }

-- A counter operation: `if (auto *chunk = find(handle)) { ... }`.
unfoldable pub on_chunk : (ChunkInfo → ChunkInfo) → ChunkLocator → ℕ → ChunkLocator
on_chunk f l handle =
    if finds l handle
    then put_chunk l (index_from_id handle) (f (chunk_at l (index_from_id handle)))
    else l

unfoldable pub initialize : Bool → ChunkLocator → Result ChunkLocator
initialize resource l =
    throw_if (not resource) null_pointer >> ok (record l { has_resource = true })

-- The slot, and the table with it.
unfoldable pub reserve_slot : ChunkLocator → ℕ × ChunkLocator
reserve_slot l = elim (l.free_list) [
  | [] ↦ (length l.chunks, record l { chunks = l.chunks ++ (no_chunk ∷ []) })
  | slot ∷ rest ↦ (slot, record l { free_list = rest })
]

unfoldable pub place_chunk : ℕ → ℕ → View → ChunkLocator → BufferBlock × ChunkLocator
place_chunk size alignment base l =
    let r = reserve_slot l in
    let chunk : ChunkInfo = record {
      base = base;
      size = size;
      alignment = alignment;
      used = 0;
      pending = 0;
      alive = true;
    } in
    (record { handle = encode_id r.0; view = base }, put_chunk r.1 (r.0) chunk)

abbrev pub bump : ℕ → ℕ
bump n = (n + 1) % 2 ^ 32

abbrev pub drop_one : ℕ → ℕ
drop_one n = if ltb 0 n then n - 1 else n

unfoldable pub increment_used : ChunkLocator → ℕ → ChunkLocator
increment_used l handle = on_chunk (λ c. record c { used = bump c.used }) l handle

unfoldable pub decrement_used : ChunkLocator → ℕ → ChunkLocator
decrement_used l handle = on_chunk (λ c. record c { used = drop_one c.used }) l handle

unfoldable pub increment_pending : ChunkLocator → ℕ → ChunkLocator
increment_pending l handle = on_chunk (λ c. record c { pending = bump c.pending }) l handle

unfoldable pub decrement_pending : ChunkLocator → ℕ → ChunkLocator
decrement_pending l handle = on_chunk (λ c. record c { pending = drop_one c.pending }) l handle

unfoldable pub decrement_pending_and_used : ChunkLocator → ℕ → ChunkLocator
decrement_pending_and_used l handle =
    on_chunk (λ c. record c { pending = drop_one c.pending; used = drop_one c.used }) l handle

unfoldable pub find_chunk_size : ChunkLocator → ℕ → ℕ
find_chunk_size l handle = if finds l handle then (chunk_at l (index_from_id handle)).size else 0

unfoldable pub is_alive : ChunkLocator → ℕ → Bool
is_alive l handle = finds l handle && (chunk_at l (index_from_id handle)).alive

abbrev pub is_releasable : ChunkInfo → Bool
is_releasable c = c.alive && (c.used == 0) && (c.pending == 0)

-- The loop of `findReleasable` from slot `i` on.
unfoldable pub find_releasable_from : ℕ → List ChunkInfo → ℕ
find_releasable_from i [] = invalid_handle
find_releasable_from i (c ∷ rest) =
    let later = find_releasable_from (i + 1) rest in if is_releasable c then encode_id i else later

unfoldable pub find_releasable : ChunkLocator → ℕ
find_releasable l = find_releasable_from 0 l.chunks

module _ {World : Type 0} (resource : Resource World) where
  unfoldable pub add_chunk :
      ChunkLocator → ℕ → ℕ → World → Result (BufferBlock × ChunkLocator × World)
  add_chunk l size alignment w =
      throw_if (not l.has_resource) invalid_state
      >> throw_if (size == 0) invalid_parameter
      >> (let r = resource.allocate size alignment w in
          if is_empty r.0
          then ok (no_block, l, r.1)
          else (let p = place_chunk size alignment (r.0) l in ok (p.0, p.1, r.1)))

  unfoldable pub release_chunk : ChunkLocator → ℕ → World → Bool × ChunkLocator × World
  release_chunk l handle w =
      let slot = index_from_id handle in
      let chunk = chunk_at l slot in
      if leb (length l.chunks) slot || not l.has_resource
      then (false, l, w)
      else if not (is_releasable chunk)
      then (false, l, w)
      else (
        true,
        record l { chunks = set l.chunks slot no_chunk; free_list = slot ∷ l.free_list },
        resource.deallocate (chunk.base) (chunk.size) (chunk.alignment) w,
      )
