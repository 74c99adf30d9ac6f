-- ===== src/Allocator.antt =====
-- What the allocator policies of orteaf/include/orteaf/internal/execution/allocator share: the views,
-- blocks and buffers of execution/cpu/resource/cpu_buffer_view.h and cpu_buffer.h, and the resource
-- that the policies are instantiated with, a record of its calls over a state `World`.
pub mod SizeClass
pub mod ChunkLocator
pub mod LargeAlloc
pub mod Freelist
pub mod Reuse
pub mod SegregatePool
pub mod Routing
pub mod Chunks
pub mod Waiting
pub mod Tiling
pub mod Large
pub mod LargeTable
pub mod LargeEnd
pub mod Lifetime
mod Tests
use orteaf.Prelude.{ℕ, ◌-◌, ◌^◌, Bool, not, ◌&&◌, ◌==◌}

-- `CpuBufferView`; the null pointer is base 0.
pub record View : Type 0 where
  pub base : ℕ
  pub offset : ℕ
  pub size : ℕ

abbrev pub no_view : View
no_view = record { base = 0; offset = 0; size = 0 }

abbrev pub is_empty : View → Bool
is_empty v = v.base == 0

-- `CpuResource::makeView`.
abbrev pub make_view : View → ℕ → ℕ → View
make_view v offset size = record { base = v.base; offset = offset; size = size }

-- `BufferViewHandle::invalid_index()`.
abbrev pub invalid_handle : ℕ
invalid_handle = 2 ^ 32 - 1

-- `CpuBufferBlock`, with the handle's index for the handle.
pub record BufferBlock : Type 0 where
  pub handle : ℕ
  pub view : View

abbrev pub no_block : BufferBlock
no_block = record { handle = invalid_handle; view = no_view }

abbrev pub is_valid : BufferBlock → Bool
is_valid b = not (b.handle == invalid_handle) && not (is_empty (b.view))

-- `allocate`, `deallocate` and `isCompleted` of the resource.
pub record Resource (World : Type 0) : Type 0 where
  pub allocate : ℕ → ℕ → World → View × World
  pub deallocate : View → ℕ → ℕ → World → World
  pub is_completed : ℕ → World → Bool
