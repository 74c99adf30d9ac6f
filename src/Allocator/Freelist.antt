-- ===== src/Allocator/Freelist.antt =====
-- The stacks of free blocks, one for each size class:
-- orteaf/include/orteaf/internal/execution/allocator/policies/freelist/host_stack_freelist_policy.h.
-- The top of a stack is the head of its list.
use orteaf.Prelude.{
  ℕ, zero, suc, ◌+◌, ◌-◌, ◌*◌, ◌/◌, Bool, true, not, ◌||◌, List, [], ◌∷◌, ◌++◌, ltb, leb, ◌==◌,
  if◌then◌else◌, length, get_or, set, replicate, take, map,
}
use orteaf.Diagnostics.{Result, ok, ◌>>◌, throw_if, null_pointer, invalid_state}
use orteaf.Allocator.{make_view, BufferBlock, no_block, is_valid}

pub record Freelist : Type 0 where
  pub has_resource : Bool
  pub stacks : List (List BufferBlock)

-- `stacks_.resize(n)`.
abbrev resize_stacks : List (List BufferBlock) → ℕ → List (List BufferBlock)
resize_stacks stacks n = take n stacks ++ replicate (n - length stacks) []

unfoldable pub initialize : Bool → ℕ → Freelist → Result Freelist
initialize resource size_class_count l =
    throw_if (not resource) null_pointer
    >> ok (record {
      has_resource = true;
      stacks = if ltb 0 size_class_count then resize_stacks l.stacks size_class_count else l.stacks;
    })

unfoldable pub ensure_capacity : ℕ → Freelist → Freelist
ensure_capacity list_index l =
    if leb (length l.stacks) list_index
    then record l { stacks = resize_stacks l.stacks (list_index + 1) }
    else l

abbrev pub stack_at : Freelist → ℕ → List BufferBlock
stack_at l list_index = get_or l.stacks list_index []

abbrev pub push_back : BufferBlock → Freelist → ℕ → Freelist
push_back block l list_index = record l {
  stacks = set l.stacks list_index (block ∷ stack_at l list_index);
}

unfoldable pub push : Freelist → ℕ → BufferBlock → Result Freelist
push l list_index block =
    throw_if (not l.has_resource) invalid_state
    >> ok (push_back block (ensure_capacity list_index l) list_index)

unfoldable pub pop_top : Freelist → ℕ → BufferBlock × Freelist
pop_top l list_index = elim (stack_at l list_index) [
  | [] ↦ (no_block, l)
  | block ∷ rest ↦ (block, record l { stacks = set l.stacks list_index rest })
]

unfoldable pub pop : Freelist → ℕ → Result (BufferBlock × Freelist)
pop l list_index =
    throw_if (not l.has_resource) invalid_state
    >> ok (if leb (length l.stacks) list_index then (no_block, l) else pop_top l list_index)

unfoldable pub empty : Freelist → ℕ → Bool
empty l list_index = leb (length l.stacks) list_index || (length (stack_at l list_index) == 0)

unfoldable pub total_from : List (List BufferBlock) → ℕ
total_from [] = 0
total_from (stack ∷ rest) = length stack + total_from rest

abbrev pub get_total_free_blocks : Freelist → ℕ
get_total_free_blocks l = total_from l.stacks

-- Block `i` of a chunk.
unfoldable pub block_in : BufferBlock → ℕ → ℕ → BufferBlock
block_in chunk block_size i =
    let view = chunk.view in
    record {
      handle = chunk.handle;
      view = make_view view (view.offset + i * block_size) block_size;
    }

-- The loop of `expand`, from block `i` on, `count` more times.
unfoldable pub expand_loop : BufferBlock → ℕ → ℕ → ℕ → ℕ → Freelist → Freelist
expand_loop chunk block_size list_index i zero l = l
expand_loop chunk block_size list_index i (suc count) l =
    expand_loop chunk block_size list_index (i + 1) count
      (push_back (block_in chunk block_size i) l list_index)

unfoldable pub expand : Freelist → ℕ → BufferBlock → ℕ → ℕ → Result Freelist
expand l list_index chunk chunk_size block_size =
    throw_if (not l.has_resource) invalid_state
    >> ok (
        if not (is_valid chunk) || (block_size == 0)
        then l
        else expand_loop chunk block_size list_index 0 (chunk_size / block_size)
            (ensure_capacity list_index l))

-- The inner loops of `removeBlocksInChunk`: the blocks that are kept, popped one by one, and pushed
-- back in the order in which they were popped.
unfoldable pub kept_blocks : ℕ → List BufferBlock → List BufferBlock
kept_blocks handle [] = []
kept_blocks handle (top ∷ stack) =
    let kept = kept_blocks handle stack in if top.handle == handle then kept else top ∷ kept

unfoldable pub push_all : List BufferBlock → List BufferBlock → List BufferBlock
push_all [] stack = stack
push_all (block ∷ kept) stack = push_all kept (block ∷ stack)

unfoldable pub filter_stack : ℕ → List BufferBlock → List BufferBlock
filter_stack handle stack = push_all (kept_blocks handle stack) []

unfoldable pub remove_blocks_in_chunk : Freelist → ℕ → Freelist
remove_blocks_in_chunk l handle = record l { stacks = map (filter_stack handle) l.stacks }
