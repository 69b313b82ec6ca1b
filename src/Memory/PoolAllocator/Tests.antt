-- ===== src/Memory/PoolAllocator/Tests.antt =====
-- Runs of hologine/core/memory/pool_allocator.cpp.
use hologine.Base.{
  ℕ, zero, suc, ◌+◌, ◌*◌, ◌≤◌, ◌<◌, ◌≡◌, refl, true, none, some, [], ◌∷◌, get_elem?, arith,
}
use hologine.Memory.MemoryArenaPool.{
  ArenaRecord, MemoryArenaPool, Answers, zero_record, load, take_arena, pop_arena, get_arena,
}
use hologine.Memory.MemoryArenaPool.Arenas.{IsValid}
use hologine.Memory.PoolAllocator.Requests.{PoolAllocator, pool_allocator}
use hologine.Memory.PoolAllocator.{deallocate}
use hologine.Memory.PoolAllocator.Lazy.{IsLazy}
use hologine.Memory.PoolAllocator.Objects.{allocations, deallocate-fails}
use hologine.Memory.PoolAllocator.First.{IsFresh, allocations-fresh}

abbrev free_arena : ArenaRecord
free_arena = record zero_record { base = 66536 }

-- One free arena of 100 bytes.
abbrev arenas : MemoryArenaPool
arenas = record {
  region = record { max_size = 100000; current_size = 65736; memory = 1000 };
  records = free_arena ∷ [];
  next_free_arena = 1;
  arena_pool = 66536;
  arena_size = 100;
  arena_reserved = 1;
  arena_count = 1;
}

abbrev taken : MemoryArenaPool
taken = record arenas { next_free_arena = 0 }

abbrev fresh : PoolAllocator
fresh = record {
  arena_list_head = 0;
  arena_list_tail = 0;
  memory_arena_pool = arenas;
  object_size = 24;
  object_count = 4;
  address = 8;
  nodes = λ p. none;
}

abbrev granted : Answers
granted = record { reserved = 1000; committed = true }

-- The constructor raises the size of an object, but divides by the size that it was given.
constructed : pool_allocator 8 arenas 20 ≡ some (record fresh { object_count = 5 })
constructed = refl

taken-links : (i : ℕ) (r : ArenaRecord) → get_elem? taken.records i ≡ some r → r.next ≤ 1
taken-links zero r g = ground (arith, g)
taken-links (suc i) r g = absurd (ground (arith, g))

taken-bases :
    (i : ℕ) (r : ArenaRecord)
    → i < 1
    → get_elem? taken.records i ≡ some r
    → r.base ≡ 66536 + i * 100
taken-bases zero r l g = ground (arith, g)
taken-bases (suc i) r l g = absurd (omega arith)

taken-IsValid : IsValid taken
taken-IsValid = record {
  room = omega arith;
  count = omega arith;
  head = omega arith;
  links = taken-links;
  bases = taken-bases;
}

fresh-IsFresh : IsFresh fresh granted 1 taken free_arena
unfolding take_arena pop_arena load
fresh-IsFresh = record {
  head = refl;
  tail = refl;
  taken = refl;
  valid = taken-IsValid;
  not_null = omega arith;
  allocated = omega arith;
  read = refl;
  above = omega arith;
  sized = omega arith;
  few = omega arith;
  room = omega arith;
}

allocations-fresh_example :
    (a' : PoolAllocator) × (allocations (10 ∷ 24 ∷ 3 ∷ []) granted fresh
      ≡ some (66536 ∷ 66560 ∷ 66584 ∷ [], a'))
    × IsLazy a' 1 66536 4 3
allocations-fresh_example =
    allocations-fresh fresh granted 1 taken free_arena fresh-IsFresh 10 (24 ∷ 3 ∷ []) (omega arith)
      (omega arith, (omega arith, (omega arith, tt)))

abbrev used_arena : ArenaRecord
used_arena = record free_arena { allocator = 8; free_node_count = 3; free_node_list = 66560 }

-- The allocator behind one allocation.
abbrev used : PoolAllocator
used = record fresh {
  arena_list_head = 1;
  arena_list_tail = 1;
  memory_arena_pool = record taken { records = used_arena ∷ [] };
  object_count = 5;
}

used-arena : load used.memory_arena_pool (get_arena 66536 used.memory_arena_pool) ≡ some used_arena
unfolding load get_arena
used-arena = refl

deallocate-fails_example : deallocate 66536 used ≡ none
deallocate-fails_example =
    deallocate-fails 66536 used_arena used used-arena (omega arith) (omega arith) (omega arith)
