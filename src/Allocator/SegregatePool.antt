-- ===== src/Allocator/SegregatePool.antt =====
-- The allocator that routes a request to its policies:
-- orteaf/include/orteaf/internal/execution/allocator/pool/segregate_pool.h. The policies are the direct
-- chunk locator, the direct large allocator, the host stack freelist, deferred reuse and fast free.
-- Calls run one after the other, as under the lock; the statistics are left out. The state after an
-- exception is left out too.
use orteaf.Prelude.{
  ℕ, zero, suc, ◌+◌, ◌-◌, ◌*◌, ◌/◌, Bool, not, ◌||◌, List, [], ◌∷◌, Option, none, some, ltb, ◌==◌,
  if◌then◌else◌, length,
}
use orteaf.Diagnostics.{Result, ok, ◌>>=◌}
use orteaf.Allocator.{BufferBlock, no_block, is_valid, invalid_handle, Resource}
use orteaf.Allocator.SizeClass.{size_class_index, size_class_count, get_block_size, block_size_for}
use orteaf.Allocator.ChunkLocator
use orteaf.Allocator.ChunkLocator.{
  ChunkLocator, increment_used, increment_pending, decrement_pending_and_used, find_releasable,
  add_chunk, release_chunk,
}
use orteaf.Allocator.LargeAlloc
use orteaf.Allocator.LargeAlloc.{LargeAlloc}
use orteaf.Allocator.Freelist
use orteaf.Allocator.Freelist.{Freelist, push, pop, expand}
use orteaf.Allocator.Reuse
use orteaf.Allocator.Reuse.{ReusePolicy, ReadyReuse, schedule_for_reuse, process_pending}

pub record SegregatePool : Type 0 where
  pub min_block_size : ℕ
  pub max_block_size : ℕ
  pub chunk_size : ℕ
  pub large : LargeAlloc
  pub locator : ChunkLocator
  pub reuse : ReusePolicy
  pub freelist : Freelist

-- `CpuBuffer`, with its reuse token.
pub record Buffer : Type 0 where
  pub block : BufferBlock
  pub reuse_token : ℕ

-- `BufferResource{}` and `fromBlock`, whose token is value-initialised.
abbrev pub from_block : BufferBlock → Buffer
from_block block = record { block = block; reuse_token = 0 }

pub record Config : Type 0 where
  pub resource : Bool
  pub timeout : ℕ
  pub chunk_size : ℕ
  pub min_block_size : ℕ
  pub max_block_size : ℕ

unfoldable pub initialize : Config → SegregatePool → Result SegregatePool
initialize config p = LargeAlloc.initialize config.resource p.large >>= λ large.
    (ChunkLocator.initialize config.resource p.locator >>= λ locator.
    (Reuse.initialize config.resource config.timeout p.reuse >>= λ reuse.
    (Freelist.initialize config.resource
        (size_class_count config.min_block_size config.max_block_size) p.freelist
      >>= λ freelist. ok (record {
        min_block_size = config.min_block_size;
        max_block_size = config.max_block_size;
        chunk_size = config.chunk_size;
        large = large;
        locator = locator;
        reuse = reuse;
        freelist = freelist;
      }))))

-- The loop of `processPendingReuses` over the ready queue.
unfoldable pub drain_ready :
    List ReadyReuse → ChunkLocator → Freelist → Result (ChunkLocator × Freelist)
drain_ready [] locator freelist = ok (locator, freelist)
drain_ready (item ∷ rest) locator freelist =
    let block = item.block in
    push freelist item.freelist_index block >>= λ next.
    drain_ready rest (decrement_pending_and_used locator block.handle) next

unfoldable pub process_pending_reuses : (ℕ → Bool) → ℕ → SegregatePool → Result SegregatePool
process_pending_reuses completed now p = process_pending completed now p.reuse >>= λ r.
    (let policy = r.1 in
      drain_ready policy.ready_queue p.locator p.freelist >>= λ q.
      ok (record p { reuse = record policy { ready_queue = [] }; locator = q.0; freelist = q.1 }))

-- The pool after a round of `releaseChunk`, with the chunk table of `releaseChunk` of the locator.
abbrev pub without_chunk : SegregatePool → ℕ → ChunkLocator → SegregatePool
without_chunk p handle locator = record p {
  reuse = Reuse.remove_blocks_in_chunk p.reuse handle;
  freelist = Freelist.remove_blocks_in_chunk p.freelist handle;
  locator = locator;
}

module _ {World : Type 0} (resource : Resource World) where
  unfoldable pub expand_pool : SegregatePool → ℕ → ℕ → World → Result (SegregatePool × World)
  expand_pool p list_idx block_size w =
      let num_blocks = (p.chunk_size + block_size - 1) / block_size in
      let actual_chunk_size = num_blocks * block_size in
      add_chunk resource p.locator actual_chunk_size 0 w >>= λ r.
      (if not (is_valid r.0)
        then ok (record p { locator = r.1 }, r.2)
        else (expand p.freelist list_idx r.0 actual_chunk_size block_size >>= λ freelist.
            ok (record p { locator = r.1; freelist = freelist }, r.2)))

  -- The end of `allocate`, with the block that was popped.
  unfoldable pub finish_allocate :
      SegregatePool → World → BufferBlock × Freelist → Result (Buffer × SegregatePool × World)
  finish_allocate p w r =
      let block = r.0 in
      if is_valid block
      then ok (
        from_block block,
        record p { freelist = r.1; locator = increment_used p.locator block.handle },
        w,
      )
      else ok (from_block no_block, record p { freelist = r.1 }, w)

  unfoldable pub allocate_small :
      SegregatePool → ℕ → ℕ → World → Result (Buffer × SegregatePool × World)
  allocate_small p size now w =
      process_pending_reuses (λ token. resource.is_completed token w) now p >>= λ q.
      (let block_size = block_size_for q.min_block_size size in
        let list_idx = size_class_index block_size q.min_block_size in
        pop q.freelist list_idx >>= λ r.
        (if is_valid r.0
          then finish_allocate q w r
          else (expand_pool (record q { freelist = r.1 }) list_idx block_size w >>= λ s.
              (let grown = s.0 in
                pop grown.freelist list_idx >>= λ t. finish_allocate grown (s.1) t))))

  unfoldable pub allocate_large :
      SegregatePool → ℕ → ℕ → World → Result (Buffer × SegregatePool × World)
  allocate_large p size alignment w = LargeAlloc.allocate resource p.large size alignment w >>= λ r.
      ok (from_block r.0, record p { large = r.1 }, r.2)

  unfoldable pub allocate :
      SegregatePool → ℕ → ℕ → ℕ → World → Result (Buffer × SegregatePool × World)
  allocate p size alignment now w =
      if size == 0
      then ok (from_block no_block, p, w)
      else if ltb p.max_block_size size
      then allocate_large p size alignment w
      else allocate_small p size now w

  unfoldable pub deallocate_small : SegregatePool → Buffer → ℕ → ℕ → Result SegregatePool
  deallocate_small p b size now =
      let block = b.block in
      let list_idx = size_class_index (get_block_size p.min_block_size size) p.min_block_size in
      schedule_for_reuse p.reuse block b.reuse_token list_idx now >>= λ reuse.
      ok (record p { reuse = reuse; locator = increment_pending p.locator block.handle })

  unfoldable pub deallocate :
      SegregatePool → Buffer → ℕ → ℕ → ℕ → World → Result (SegregatePool × World)
  deallocate p b size alignment now w =
      let block = b.block in
      if not (is_valid block) || (size == 0)
      then ok (p, w)
      else if ltb p.max_block_size size
      then (let r = LargeAlloc.deallocate resource p.large block.handle size alignment w in
          ok (record p { large = r.0 }, r.1))
      else (deallocate_small p b size now >>= λ q. ok (q, w))

  -- The `while (true)` of `releaseChunk`. A round that goes on makes one living chunk dead, so as many
  -- rounds as there are chunks, and one more, reach its end.
  unfoldable pub release_loop : ℕ → SegregatePool → World → Option (SegregatePool × World)
  release_loop zero p w = none
  release_loop (suc fuel) p w =
      let handle = find_releasable p.locator in
      let r = release_chunk resource p.locator handle w in
      let cleaned = without_chunk p handle r.1 in
      let rest = release_loop fuel cleaned r.2 in
      if handle == invalid_handle then some (p, w) else if r.0 then rest else some (cleaned, r.2)

  unfoldable pub release_chunks :
      SegregatePool → ℕ → World → Result (Option (SegregatePool × World))
  release_chunks p now w =
      process_pending_reuses (λ token. resource.is_completed token w) now p >>= λ q.
      (let locator = q.locator in ok (release_loop (suc (length locator.chunks)) q w))
