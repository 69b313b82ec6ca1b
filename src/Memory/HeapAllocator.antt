-- ===== src/Memory/HeapAllocator.antt =====
-- hologine/core/memory/heap_allocator.cpp: pool allocators for objects of growing sizes, on one pool
-- of arenas.
pub mod Pools
mod Tests
use hologine.Base.{
  ℕ, zero, suc, ◌+◌, ◌-◌, ◌*◌, ◌^◌, ◌%◌, max, Bool, true, false, Option, none, some, List, [], ◌∷◌,
  ltb, ◌==◌, if◌then◌else◌, ◌>>=◌, get_elem?, set,
}
use hologine.Exception.Codes.{ExceptionCode}
use hologine.Math.Bits.{bit_log2}
use hologine.Memory.Allocator.{align_pointer}
use hologine.Memory.MemoryArenaPool.{MemoryArenaPool, Answers, memory_arena_pool, load, get_arena}
use hologine.Memory.PoolAllocator as PoolAllocator
use hologine.Memory.PoolAllocator.Requests.{PoolAllocator, FreeNode, pool_allocator}

abbrev pub default_alignment : ℕ
default_alignment = 16

-- `sizeof(pool_allocator)`: six words
abbrev pub sizeof_pool_allocator : ℕ
sizeof_pool_allocator = 48

-- The pool allocators share the pool of arenas and the memory `nodes`: what their own fields for
-- these hold is not used. `buffer` is the address of the first one.
pub record HeapAllocator : Type 0 where
  pub memory_arena_pool : MemoryArenaPool
  pub nodes : ℕ → Option FreeNode
  pub buffer : ℕ
  pub pool_allocators : List PoolAllocator
  pub minimum_pool_size : ℕ
  pub maximum_pool_size : ℕ

-- The loop of the constructor, over the sizes that are left: `rounds` allocators, the first one at
-- `address`. `none` is a shift that overflows an `int`.
pub make_pools : MemoryArenaPool → ℕ → ℕ → ℕ → Option (List PoolAllocator)
make_pools pool address current_size zero = some []
make_pools pool address current_size (suc rounds) =
    if ltb current_size 31
    then (do
      a ← pool_allocator address pool (2 ^ current_size)
      rest ← make_pools pool (address + sizeof_pool_allocator) (suc current_size) rounds
      some (a ∷ rest))
    else none

-- The pool sizes are logarithms, by the intrinsic `scan`; the loop includes the maximum. `none` is a
-- failed assertion, too.
pub heap_allocator :
    (ℕ → ℕ) → Answers → (ℕ → Option FreeNode) → ℕ → ℕ → ℕ → ℕ → ℕ → Option HeapAllocator
unfolding make_pools
heap_allocator scan answers nodes buffer arena_size arena_count pool_start pool_end =
    let pool = memory_arena_pool answers arena_size arena_count in
    let minimum = bit_log2 scan pool_start in
    let maximum = bit_log2 scan pool_end in
    if pool_start == 0 then none else if ltb pool_end pool_start then none else (do
      pools ← make_pools pool buffer minimum (maximum + 1 - minimum)
      some (record {
        memory_arena_pool = pool;
        nodes = nodes;
        buffer = buffer;
        pool_allocators = pools;
        minimum_pool_size = minimum;
        maximum_pool_size = maximum;
      }))

-- A pool allocator on what it shares with the others.
abbrev pub shared : HeapAllocator → PoolAllocator → PoolAllocator
shared h a = record a { memory_arena_pool = h.memory_arena_pool; nodes = h.nodes }

-- The heap behind an operation of the pool allocator at an index.
abbrev pub keep : ℕ → PoolAllocator → HeapAllocator → HeapAllocator
keep index a h = record h {
  memory_arena_pool = a.memory_arena_pool;
  nodes = a.nodes;
  pool_allocators = set h.pool_allocators index a;
}

-- The size that `allocate` looks up: that of the alignment, less what every block has.
abbrev pub final_size : ℕ → ℕ
final_size alignment =
    let required_alignment = max alignment default_alignment - default_alignment in
    if ltb 0 required_alignment then required_alignment - 1 else required_alignment

-- `allocate` behind the choice of a pool allocator.
abbrev pub allocate_from :
    ℕ → Answers → ℕ → ℕ → ℕ → HeapAllocator → Option (List ExceptionCode × ℕ × HeapAllocator)
allocate_from fuel answers size alignment index h = do
  a ← get_elem? h.pool_allocators index
  (pushed, base_pointer, a') ← PoolAllocator.allocate fuel answers size (shared h a)
  some (
    pushed,
    if base_pointer == 0 then 0 else align_pointer base_pointer alignment,
    keep index a' h,
  )

-- The exceptions that are pushed, the pointer, and the heap.
pub allocate :
    (ℕ → ℕ) → ℕ → Answers → ℕ → ℕ → HeapAllocator → Option (List ExceptionCode × ℕ × HeapAllocator)
allocate scan fuel answers size alignment h =
    let pool_index = max (bit_log2 scan (final_size alignment)) h.minimum_pool_size in
    if ltb h.maximum_pool_size pool_index
    then some (ExceptionCode.out_of_memory ∷ [], 0, h)
    else allocate_from fuel answers size alignment (pool_index - h.minimum_pool_size) h

-- The index of the pool allocator at an address.
pub find_pool : ℕ → ℕ → List PoolAllocator → Option ℕ
find_pool address index [] = none
find_pool address index (a ∷ pools) =
    let rest = find_pool address (suc index) pools in
    if a.address == address then some index else rest

-- The call goes to the allocator that the record of the arena names.
abbrev pub deallocate : ℕ → HeapAllocator → Option HeapAllocator
unfolding find_pool
deallocate pointer h = do
  r ← load h.memory_arena_pool (get_arena pointer h.memory_arena_pool)
  index ← find_pool r.allocator 0 h.pool_allocators
  a ← get_elem? h.pool_allocators index
  a' ← PoolAllocator.deallocate pointer (shared h a)
  some (keep index a' h)

-- The loop of the destructor, over the pool allocators from an index on.
pub destroy_pools : ℕ → ℕ → ℕ → HeapAllocator → Option HeapAllocator
destroy_pools fuel index zero h = some h
destroy_pools fuel index (suc rounds) h = do
  a ← get_elem? h.pool_allocators index
  a' ← PoolAllocator.destroy fuel a.arena_list_head (shared h a)
  destroy_pools fuel (suc index) rounds (keep index a' h)

-- The number of pool allocators that are destructed does not include the maximum.
abbrev pub destroy : ℕ → HeapAllocator → Option HeapAllocator
unfolding destroy_pools
destroy fuel h =
    destroy_pools fuel 0 ((h.maximum_pool_size + 2 ^ 64 - h.minimum_pool_size) % 2 ^ 64) h
