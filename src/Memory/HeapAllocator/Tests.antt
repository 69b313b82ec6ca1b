-- ===== src/Memory/HeapAllocator/Tests.antt =====
-- Runs of hologine/core/memory/heap_allocator.cpp.
use hologine.Base.{
  ℕ, ◌≡◌, refl, true, none, some, [], ◌∷◌, get_elem?, length, arith, leb, if◌then◌else◌,
}
use hologine.Exception.Codes.{ExceptionCode}
use hologine.Memory.MemoryArenaPool.{MemoryArenaPool, Answers, zero_record}
use hologine.Memory.HeapAllocator.{
  HeapAllocator, heap_allocator, allocate, allocate_from, keep, shared, find_pool,
}
use hologine.Memory.HeapAllocator.Pools.{pool_of, heap_allocator_lem, allocate-first}

-- The highest bit of a word below 128.
abbrev scan : ℕ → ℕ
scan v = if leb 64 v then 6 else if leb 32 v then 5 else if leb 16 v then 4 else 0

abbrev granted : Answers
granted = record { reserved = 1000; committed = true }

-- Pools for 32 and 64 bytes: the second one.
heap_allocator_lem_example :
    (h : HeapAllocator) × (heap_allocator scan granted (λ p. none) 5000 100 3 32 64 ≡ some h)
    × (length h.pool_allocators ≡ 2)
    × (get_elem? h.pool_allocators 1 ≡ some (pool_of h.memory_arena_pool 5048 6))
    × (find_pool 5048 0 h.pool_allocators ≡ some 1)
heap_allocator_lem_example =
    heap_allocator_lem scan granted (λ p. none) 5000 100 3 32 64 1 (omega arith) (omega arith)
      (omega arith) (omega arith) (omega arith)

abbrev arenas : MemoryArenaPool
arenas = record {
  region = record { max_size = 100000; current_size = 65736; memory = 1000 };
  records = record zero_record { base = 66536 } ∷ [];
  next_free_arena = 1;
  arena_pool = 66536;
  arena_size = 100;
  arena_reserved = 1;
  arena_count = 1;
}

abbrev built : HeapAllocator
built = record {
  memory_arena_pool = arenas;
  nodes = λ p. none;
  buffer = 5000;
  pool_allocators = pool_of arenas 5000 5 ∷ pool_of arenas 5048 6 ∷ [];
  minimum_pool_size = 5;
  maximum_pool_size = 6;
}

-- 40 bytes do not come from the pool for 64.
allocate-first_example :
    (allocate scan 1 granted 40 16 built ≡ allocate_from 1 granted 40 16 0 built)
    × (allocate scan 1 granted 40 16 built
        ≡ some (
          ExceptionCode.invalid_argument ∷ [],
          0,
          keep 0 (shared built (pool_of arenas 5000 5)) built,
        ))
allocate-first_example =
    allocate-first scan 1 granted 40 16 built (pool_of arenas 5000 5) refl (omega arith)
      (omega arith) refl (omega arith)
