-- ===== src/Allocator/Tests.antt =====
-- Runs of the allocator on a resource that hands out numbered regions and always has completed.
use orteaf.Prelude.{
  ℕ, suc, ◌+◌, ◌-◌, ◌^◌, ◌≤◌, ◌<◌, ◌≡◌, refl, arith, Bool, true, false, List, [], ◌++◌, ◌*◌, ◌/◌,
  ◌==◌, map, ◌∷◌, length, some,
}
use orteaf.Diagnostics.{Result, ok, err}
use orteaf.Allocator.{View, BufferBlock, Resource}
use orteaf.Allocator.SizeClass.{
  ceil_log_from, ceil_log, bit_ceil, countr_zero_from, countr_zero, size_class_index,
  size_class_count, size_class_to_block_size, get_block_size, block_size_for,
}
use orteaf.Allocator.ChunkLocator.{
  ChunkInfo, encode_id, index_from_id, finds, on_chunk, reserve_slot, place_chunk, add_chunk,
  increment_used, find_releasable,
}
use orteaf.Allocator.LargeAlloc
use orteaf.Allocator.LargeAlloc.{LargeAlloc, is_alive, place_entry}
use orteaf.Allocator.Freelist.{
  Freelist, stack_at, pop, pop_top, ensure_capacity, expand, expand_loop, block_in,
}
use orteaf.Allocator.Reuse.{
  ReusePolicy, refresh, get_pending_reuse_count, process_pending, process_loop,
}
use orteaf.Allocator.SegregatePool.{
  SegregatePool, Buffer, allocate, release_loop, process_pending_reuses, drain_ready, expand_pool,
  finish_allocate, allocate_small,
}
use orteaf.Allocator.Routing.{block_size_for_lem}
use orteaf.Allocator.Chunks.{release_loop-ends}
use orteaf.Allocator.Tiling.{Tiles, expand_lem}
use orteaf.Allocator.Waiting.{finished, unfinished, push_ready, process_pending_lem}
use orteaf.Allocator.Lifetime
use orteaf.Allocator.LargeTable.{IsValid}
use orteaf.Allocator.Lifetime.{perform_all-deallocate}

-- The world counts the regions that are out.
abbrev regions : Resource ℕ
regions = record {
  allocate = λ size alignment w. (record { base = w + 1; offset = 0; size = size }, w + 1);
  deallocate = λ view size alignment w. w;
  is_completed = λ token w. true;
}

abbrev idle_chunk : ChunkInfo
idle_chunk = record {
  base = record { base = 1; offset = 0; size = 256 };
  size = 256;
  alignment = 0;
  used = 0;
  pending = 0;
  alive = true;
}

abbrev small_pool : SegregatePool
small_pool = record {
  min_block_size = 64;
  max_block_size = 256;
  chunk_size = 256;
  large = record { has_resource = true; entries = []; free_list = [] };
  locator = record { has_resource = true; chunks = []; free_list = [] };
  reuse = record { pending_queue = []; ready_queue = []; timeout = 1000; has_resource = true };
  freelist = record { has_resource = true; stacks = [] };
}

abbrev with_chunks : SegregatePool
with_chunks = record small_pool {
  locator = record {
    has_resource = true;
    chunks = idle_chunk ∷ record idle_chunk { used = 1 } ∷ [];
    free_list = [];
  };
}

-- A request of 100 bytes gets the last block of 128 bytes of a new chunk of 256.
abbrev first_block : Result (Buffer × SegregatePool × ℕ) → Result BufferBlock
first_block (ok r) = ok ((r.0).block)
first_block (err e) = err e

allocates :
    first_block (allocate regions small_pool 100 8 0 0)
    ≡ ok (record { handle = 0; view = record { base = 1; offset = 128; size = 128 } })
unfolding allocate allocate_small process_pending_reuses drain_ready process_pending process_loop
    expand_pool finish_allocate add_chunk place_chunk reserve_slot encode_id index_from_id finds
    on_chunk increment_used block_size_for size_class_to_block_size size_class_index countr_zero
    countr_zero_from bit_ceil ceil_log ceil_log_from pop pop_top expand expand_loop ensure_capacity
    block_in
allocates = refl

block_size_for_lem_example :
    (100 ≤ block_size_for 64 100)
    × (block_size_for 64 100 ≡ get_block_size 64 100)
    × (size_class_index (block_size_for 64 100) 64 < size_class_count 64 256)
block_size_for_lem_example =
    block_size_for_lem 64 256 100 (omega arith) (omega arith) (omega arith) (omega arith)

release_loop-ends_example :
    (r : SegregatePool × ℕ) × (release_loop regions
        (suc (length (with_chunks.locator).chunks))
        with_chunks
        0
      ≡ some r)
    × (find_releasable (r.0).locator ≡ 2 ^ 32 - 1)
release_loop-ends_example = release_loop-ends regions with_chunks 0 refl (omega arith)

abbrev one_chunk : BufferBlock
one_chunk = record { handle = 3; view = record { base = 7; offset = 0; size = 300 } }

expand_lem_example :
    (q : Freelist) × (blocks : List BufferBlock) × (expand (small_pool.freelist) 1 one_chunk 300 128
      ≡ ok q)
    × (stack_at q 1 ≡ blocks ++ stack_at (small_pool.freelist) 1)
    × (length blocks ≡ 300 / 128)
    × Tiles 3 128 0 (0 + 300 / 128 * 128) blocks
    × (300 / 128 * 128 ≤ 300)
expand_lem_example = expand_lem (small_pool.freelist) 1 one_chunk 300 128 refl refl (omega arith)

-- Token 1 is completed, and token 2 is not.
abbrev is_first : ℕ → Bool
is_first token = token == 1

abbrev waiting : ReusePolicy
waiting = record {
  pending_queue =
      record { block = one_chunk; reuse_token = 2; freelist_index = 0; timestamp = 5 }
      ∷ record { block = one_chunk; reuse_token = 1; freelist_index = 1; timestamp = 5 }
      ∷ [];
  ready_queue = [];
  timeout = 10;
  has_resource = true;
}

process_pending_lem_example :
    (q : ReusePolicy) × (process_pending is_first 20 waiting
      ≡ ok (length (finished is_first waiting.pending_queue), q))
    × (q.pending_queue ≡ map (refresh 10 20) (unfinished is_first waiting.pending_queue))
    × (q.ready_queue ≡ push_ready is_first (finished is_first waiting.pending_queue) [])
    × (get_pending_reuse_count q ≡ get_pending_reuse_count waiting)
process_pending_lem_example = process_pending_lem is_first 20 waiting refl

abbrev large_table : LargeAlloc
large_table = record {
  has_resource = true;
  entries = record { view = record { base = 0; offset = 0; size = 0 }; in_use = false } ∷ [];
  free_list = 0 ∷ [];
}

large_table-IsValid : IsValid large_table
large_table-IsValid = record { unused = ((omega arith, refl), tt); distinct = (tt, tt) }

-- The handle of index 0 is taken; then index 1 is, and is given back, and a chunk's handle is refused.
abbrev first_region : View
first_region = record { base = 1; offset = 0; size = 512 }

abbrev large_block : BufferBlock
large_block = record { handle = 2 ^ 31; view = first_region }

abbrev one_large : LargeAlloc
one_large = record large_table {
  entries = record { view = first_region; in_use = true } ∷ [];
  free_list = [];
}

allocate_first : LargeAlloc.allocate regions large_table 512 8 0 ≡ ok (large_block, one_large, 1)
unfolding LargeAlloc.allocate LargeAlloc.place_entry LargeAlloc.reserve_from LargeAlloc.encode_id
allocate_first = refl

abbrev later : List Lifetime.Call
later =
    Lifetime.allocates 1024 8
    ∷ Lifetime.deallocates (2 ^ 31 + 1) 1024 8
    ∷ Lifetime.deallocates 4 256 8
    ∷ []

perform_all-deallocate_example :
    let (now, world) = Lifetime.perform_all regions (one_large, 1) later in
    let gone = LargeAlloc.deallocate regions now (2 ^ 31) 512 8 world in
    (is_alive now (2 ^ 31) ≡ true)
    × (gone.1 ≡ world)
    × ((gone.0).free_list ≡ LargeAlloc.index_from_id (2 ^ 31) ∷ now.free_list)
    × (is_alive (gone.0) (2 ^ 31) ≡ false)
    × (LargeAlloc.deallocate regions (gone.0) (2 ^ 31) 512 8 (gone.1) ≡ gone)
unfolding Lifetime.Spares
perform_all-deallocate_example =
    perform_all-deallocate regions large_table one_large large_block 512 8 0 1 later
      large_table-IsValid (omega arith) allocate_first refl
      (
        tt,
        (
          (λ e. absurd (omega (arith, e)), omega arith),
          ((λ e. absurd (omega (arith, e)), omega arith), tt),
        ),
      )
