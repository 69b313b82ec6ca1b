-- ===== src/Memory.antt =====
-- hologine/core/memory: regions of virtual memory and what is built on them.
pub mod Allocator
pub mod FixedAllocator
pub mod MemoryRegion
pub mod PoolAllocator
pub mod HeapAllocator
pub mod LinearAllocator
pub mod MemoryArenaPool
