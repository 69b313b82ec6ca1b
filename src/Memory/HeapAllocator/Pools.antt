-- ===== src/Memory/HeapAllocator/Pools.antt =====
-- heap_allocator.cpp: which pool allocators there are, and which of them serves a request.
use hologine.Base.{
  ℕ, zero, suc, ◌+◌, ◌-◌, ◌*◌, ◌/◌, ◌^◌, ◌≤◌, ◌<◌, ◌≡◌, ◌≢◌, refl, ap, ◌∙◌, sym, max, Option, none,
  some, List, [], ◌∷◌, get_elem?, length, arith,
}
use hologine.Exception.Codes.{ExceptionCode}
use hologine.Math.Bits.{bit_log2}
use hologine.Memory.MemoryArenaPool.{MemoryArenaPool, Answers, memory_arena_pool, get_arena_size}
use hologine.Memory.PoolAllocator.Requests.{PoolAllocator, FreeNode, sizeof_free_node}
use hologine.Memory.PoolAllocator as PoolAllocator
use hologine.Memory.HeapAllocator.{
  HeapAllocator, make_pools, heap_allocator, shared, keep, find_pool, allocate, allocate_from,
  default_alignment, final_size, sizeof_pool_allocator,
}

-- The pool allocator for objects of 2 ^ `size` bytes at an address, without arenas.
abbrev pub pool_of : MemoryArenaPool → ℕ → ℕ → PoolAllocator
pool_of pool address size = record {
  arena_list_head = 0;
  arena_list_tail = 0;
  memory_arena_pool = pool;
  object_size = max (2 ^ size) sizeof_free_node;
  object_count = get_arena_size pool / 2 ^ size;
  address = address;
  nodes = λ p. none;
}

pow-not_zero : (n : ℕ) → 2 ^ n ≢ 0
pow-not_zero zero z = omega (arith, z)
pow-not_zero (suc n) z = pow-not_zero n (omega (arith, z))

abbrev At : MemoryArenaPool → ℕ → ℕ → ℕ → List PoolAllocator → Type 0
At pool address size rounds pools =
    (i : ℕ)
    → i < rounds
    → get_elem? pools i ≡ some (pool_of pool (address + i * sizeof_pool_allocator) (size + i))

pool_of-same :
    (pool : MemoryArenaPool) (a b s t : ℕ)
    → a ≡ b
    → s ≡ t
    → Path (Option PoolAllocator) (some (pool_of pool a s)) (some (pool_of pool b t))
pool_of-same pool a b s t e f = rw (e, f) refl

At-cons :
    (pool : MemoryArenaPool) (address size rounds : ℕ) (pools : List PoolAllocator)
    → At pool (address + sizeof_pool_allocator) (suc size) rounds pools
    → At pool address size (suc rounds) (pool_of pool address size ∷ pools)
At-cons pool address size rounds pools at zero l =
    pool_of-same pool address (address + 0 * 48) size (size + 0) (omega arith) (omega arith)
At-cons pool address size rounds pools at (suc i) l =
    at i (omega (arith, l))
    ∙ pool_of-same pool (address + 48 + i * 48) (address + suc i * 48) (suc size + i) (size + suc i)
        (omega arith) (omega arith)

-- The loop of the constructor makes one pool allocator for each size, in the order of their
-- addresses, where no size overflows.
make_pools_lem :
    (pool : MemoryArenaPool) (address current_size rounds : ℕ)
    → current_size + rounds ≤ 31
    → (pools : List PoolAllocator) × (make_pools pool address current_size rounds ≡ some pools)
      × (length pools ≡ rounds)
      × At pool address current_size rounds pools
unfolding make_pools
make_pools_lem pool address current_size zero h = ([], refl, refl, λ i l. absurd (omega (arith, l)))
make_pools_lem pool address current_size (suc rounds) h =
    let (rest, made, n, at) =
      make_pools_lem pool (address + sizeof_pool_allocator) (suc current_size) rounds
        (omega arith) in
    (
      pool_of pool address current_size ∷ rest,
      ground (arith, h, pow-not_zero current_size, made),
      ap suc n,
      At-cons pool address current_size rounds rest at,
    )

address_of : Option PoolAllocator → ℕ
address_of none = 0
address_of (some a) = a.address

At-head :
    (pool : MemoryArenaPool) (address size rounds : ℕ) (a : PoolAllocator)
    (pools : List PoolAllocator)
    → At pool address size (suc rounds) (a ∷ pools)
    → a.address ≡ address
unfolding address_of
At-head pool address size rounds a pools at =
    let at_zero = at 0 (omega arith) in ap address_of at_zero ∙ omega arith

At-tail :
    (pool : MemoryArenaPool) (address size rounds : ℕ) (a : PoolAllocator)
    (pools : List PoolAllocator)
    → At pool address size (suc rounds) (a ∷ pools)
    → At pool (address + sizeof_pool_allocator) (suc size) rounds pools
At-tail pool address size rounds a pools at i l =
    at (suc i) (omega (arith, l))
    ∙ pool_of-same pool (address + suc i * 48) (address + 48 + i * 48) (size + suc i) (suc size + i)
        (omega arith) (omega arith)

-- The pool allocator at an index is the one that the lookup of its address finds.
find_pool_lem :
    (pool : MemoryArenaPool) (address size from i : ℕ) (pools : List PoolAllocator)
    → At pool address size (length pools) pools
    → i < length pools
    → find_pool (address + i * sizeof_pool_allocator) from pools ≡ some (from + i)
unfolding find_pool
find_pool_lem pool address size from i [] at l = absurd (omega (arith, l))
find_pool_lem pool address size from zero (a ∷ pools) at l =
    let e : a.address ≡ address + 0 * 48 =
      omega (arith, At-head pool address size (length pools) a pools at) in
    let z : from + 0 ≡ from = omega arith in ground (arith, e, z)
find_pool_lem pool address size from (suc i) (a ∷ pools) at l =
    let e : a.address ≢ address + suc i * 48 =
      λ e. absurd (omega (arith, e, At-head pool address size (length pools) a pools at)) in
    let step : address + 48 + i * 48 ≡ address + suc i * 48 = omega arith in
    let z : suc from + i ≡ from + suc i = omega arith in
    let rest =
      find_pool_lem pool (address + 48) (suc size) (suc from) i pools
        (At-tail pool address size (length pools) a pools at) (omega (arith, l)) in
    let found : find_pool (address + suc i * 48) (suc from) pools ≡ some (from + suc i) =
      ap (λ (p : ℕ). find_pool p (suc from) pools) (sym step) ∙ rest ∙ ap some z in
    ground (arith, e, found)

from_zero : (i : ℕ) → 0 + i ≡ i
from_zero i = omega arith

-- The constructor, where no size overflows an `int`: there is one pool allocator for each of the
-- powers of two from the minimum to the maximum, whose objects have that size, or that of a free
-- node where it is larger; and the lookup of `deallocate` finds each of them by its address.
pub heap_allocator_lem :
    (scan : ℕ → ℕ) (answers : Answers) (nodes : ℕ → Option FreeNode) (buffer : ℕ)
    (arena_size arena_count pool_start pool_end i : ℕ)
    → 0 < pool_start
    → pool_start ≤ pool_end
    → bit_log2 scan pool_start ≤ bit_log2 scan pool_end
    → bit_log2 scan pool_end ≤ 30
    → i < bit_log2 scan pool_end + 1 - bit_log2 scan pool_start
    → (h : HeapAllocator) × (heap_allocator scan answers nodes buffer arena_size arena_count
          pool_start pool_end
        ≡ some h)
      × (length h.pool_allocators ≡ bit_log2 scan pool_end + 1 - bit_log2 scan pool_start)
      × (get_elem? h.pool_allocators i
          ≡ some (
              pool_of h.memory_arena_pool
                (buffer + i * sizeof_pool_allocator)
                (bit_log2 scan pool_start + i)))
      × (find_pool (buffer + i * sizeof_pool_allocator) 0 h.pool_allocators ≡ some i)
unfolding heap_allocator
heap_allocator_lem scan answers nodes buffer arena_size arena_count pool_start pool_end i p q l m
      k =
    let pool = memory_arena_pool answers arena_size arena_count in
    let low = bit_log2 scan pool_start in
    let high = bit_log2 scan pool_end in
    let (pools, made, n, at) =
      make_pools_lem pool buffer low (high + 1 - low) (omega (arith, l, m)) in
    let h : HeapAllocator = record {
      memory_arena_pool = pool;
      nodes = nodes;
      buffer = buffer;
      pool_allocators = pools;
      minimum_pool_size = low;
      maximum_pool_size = high;
    } in
    (
      h,
      ground (arith, p, q, made),
      n,
      at i k,
      find_pool_lem pool buffer low 0 i pools (rw n at) (omega (arith, n, k))
          ∙ ap some (from_zero i),
    )

final_size-default : (alignment : ℕ) → alignment ≤ default_alignment → final_size alignment ≡ 0
final_size-default alignment h = ground (arith, h)

allocate_from-first :
    (scan : ℕ → ℕ) (fuel : ℕ) (answers : Answers) (size alignment : ℕ) (h : HeapAllocator)
    → scan 1 ≡ 0
    → alignment ≤ default_alignment
    → h.minimum_pool_size ≤ h.maximum_pool_size
    → allocate scan fuel answers size alignment h ≡ allocate_from fuel answers size alignment 0 h
unfolding allocate
allocate_from-first scan fuel answers size alignment h one small l =
    let least : bit_log2 scan (final_size alignment) ≡ 0 =
      ap (λ (t : ℕ). bit_log2 scan t) (final_size-default alignment small) ∙ one in
    let none_less : h.minimum_pool_size - h.minimum_pool_size ≡ 0 = omega arith in
    rw least (ground (arith, l, none_less))

allocate_from-larger :
    (fuel : ℕ) (answers : Answers) (size alignment : ℕ) (h : HeapAllocator) (a : PoolAllocator)
    → get_elem? h.pool_allocators 0 ≡ some a
    → a.object_size < size
    → allocate_from fuel answers size alignment 0 h
      ≡ some (ExceptionCode.invalid_argument ∷ [], 0, keep 0 (shared h a) h)
unfolding PoolAllocator.allocate
allocate_from-larger fuel answers size alignment h a e larger = ground (arith, e, larger)

-- The search for a pool allocator reads the alignment only: with an alignment that every block has,
-- the first pool allocator serves every request, so a size above that of its objects is reported as
-- an invalid argument, whatever the other pool allocators could hold. `scan` finds the index 0 in
-- the word 1.
pub allocate-first :
    (scan : ℕ → ℕ) (fuel : ℕ) (answers : Answers) (size alignment : ℕ) (h : HeapAllocator)
    (a : PoolAllocator)
    → scan 1 ≡ 0
    → alignment ≤ default_alignment
    → h.minimum_pool_size ≤ h.maximum_pool_size
    → get_elem? h.pool_allocators 0 ≡ some a
    → a.object_size < size
    → (allocate scan fuel answers size alignment h ≡ allocate_from fuel answers size alignment 0 h)
      × (allocate scan fuel answers size alignment h
          ≡ some (ExceptionCode.invalid_argument ∷ [], 0, keep 0 (shared h a) h))
allocate-first scan fuel answers size alignment h a one small l e larger =
    let first = allocate_from-first scan fuel answers size alignment h one small l in
    (first, first ∙ allocate_from-larger fuel answers size alignment h a e larger)
