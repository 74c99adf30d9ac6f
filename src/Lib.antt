-- ===== src/Lib.antt =====
-- A model of the host-side core of orteaf, a tensor runtime: the pools, reference counts and
-- allocators that own memory, the packed keys of kernels, the layouts of tensors and the conversions
-- of half-precision numbers, with what makes them correct.
--
-- Parts, with paths below orteaf/include/orteaf:
--
-- Prelude has native numbers and their Boolean tests, lists by index (Prelude/Lists, Prelude/Ranges), maps
-- as association lists (Prelude/Maps), bit operations as arithmetic (Prelude/Bits), integers
-- (Prelude/Int).
-- Diagnostics is internal/diagnostics/error/error.h and error_macros.h. A call that may throw returns
-- a `Result`.
-- BlockVector is internal/base/runtime_block_vector.h. `BlockVector` holds the elements in order, the
-- number of blocks, the capacity and the block size; `ptr_at` gives the block and the place in it.
-- SlotPool is internal/base/pool/slot_pool.h over internal/base/handle.h. The record `SlotPool` has the
-- payloads, generations, created flags and freelist, and `World`, what the hooks of the pool's
-- traits act on. Acquire has acquisition and release, Storage has resize, clear and creation.
-- FixedSlotStore is internal/base/pool/fixed_slot_store.h over the same handles and traits, without a
-- freelist: `next_uncreated_index` is its cursor (Cursor), and History runs lists of its calls.
-- ControlBlock is internal/base/lease/control_block/shared.h, and Strong: strong.h beside it. The pool
-- is the interface `PoolApi`; Pooled instantiates it with the slot pool, whose slots a control
-- block releases. Races has the atomic operations on the strong count as steps of threads.
-- LeaseRegistry has the registries of internal/base/manager: Fifo is fifo_lease_lifetime_registry.h,
-- `Fifo` with the vector of leases and the head, and Slots is lease_lifetime_registry.h, an entry for
-- each payload slot. Leases and payloads are reached through the record `Leases`. Queue, Readiness and
-- Active have the proofs.
-- PoolManager is internal/base/manager/pool_manager.h over two slot pools, the payloads' with the
-- bindings of internal/base/pool/with_control_block_binding.h. Setup has configuration and shutdown,
-- Acquisition growth and leases (`acquire_lease` is `acquireLeaseImpl`), Leases the operations of
-- internal/base/lease/strong_lease.h and weak_lease.h on the manager's state. Its calls are actions on
-- the state that may throw (Action).
-- LruList is internal/base/lru_list.h, nodes linked by two maps of addresses; Refinement compares it
-- with the list of nodes in order of use.
-- KernelRegistry is internal/kernel/registry/kernel_registry.h with its configuration: the maps and
-- LRU lists of three tiers, with entries and metadata as parameters (`Kernels`).
-- KernelKey is internal/kernel/core/kernel_key.h, `make` and the getters.
-- Float16 is internal/dtype/float16.h, `float32ToHalfBits` and `halfBitsToFloat32` on bits.
-- DenseTensorLayout is extension/tensor/layout/dense_tensor_layout.h. Views has `reshape`, `broadcastTo`,
-- `squeeze` and `unsqueeze`.
-- Allocator is internal/execution/allocator. `SegregatePool` routes a request to the size class of
-- SizeClass, takes a block from the stacks of Freelist, grows them by a chunk of ChunkLocator,
-- sends large requests to LargeAlloc, and lets freed blocks wait in Reuse for their token. The
-- resource that provides memory and completes tokens is the record `Resource`.
--
-- Bounds and fuel. Handles, counts and keys have the widths of the source, with their wrap-around
-- written out. A `Dim` of a layout is an unbounded integer, since overflow of `std::int64_t` is
-- undefined, and sizes in the allocator do not wrap except in shifts. The loop that normalises a
-- subnormal has fuel 11, and ten shifts bring any bit of a ten-bit mantissa to bit 10; 64 exponents
-- are tried for a power of two that reaches a 64-bit number; the loop of `releaseChunk` has one round
-- more than there are chunks, and the one that moves the cursor of a fixed store one for each slot
-- from the cursor on. The sizes and counters of registries, lists and stores are unbounded numbers. The sums and products of
-- `RuntimeBlockVector` wrap at 2^64. The vectors of the source are lists; one that is used as a stack has
-- its back as the head of the list.
--
-- Not modelled: the platforms of CUDA and MPS, statistics, logging and locks, which have no effect on
-- the results of the calls or wrap vendor code; moves and copies of objects; messages of errors and
-- the state after an exception in the allocator; the managers of devices, queues and fences above the
-- pool manager; hierarchical slots; code generators.
pub mod Prelude
pub mod Diagnostics
pub mod BlockVector
pub mod SlotPool
pub mod FixedSlotStore
pub mod ControlBlock
pub mod LeaseRegistry
pub mod PoolManager
pub mod KernelKey
pub mod LruList
pub mod KernelRegistry
pub mod Float16
pub mod DenseTensorLayout
pub mod Allocator
