-- ===== src/Memory/MemoryArenaPool.antt =====
-- hologine/core/memory/memory_arena_pool.cpp: arenas of one size on a memory region.
pub mod Arenas
pub mod FreeList
mod Allocate
pub mod Runs
mod Tests
use hologine.Base.{
  ℕ, zero, suc, ◌+◌, ◌-◌, ◌*◌, ◌/◌, ◌%◌, ◌^◌, max, Bool, true, false, not, ◌&&◌, Option, none, some,
  List, [], ◌∷◌, ltb, leb, ◌==◌, if◌then◌else◌, ◌>>=◌, get_elem?, set, replicate,
}
use hologine.Memory.MemoryRegion.{MemoryRegion, memory_region, get_page_size, get_granularity, grow}

-- Pointers to records are their positions in the array, counted from 1, and 0 for a null pointer.
pub record ArenaRecord : Type 0 where
  pub base : ℕ
  pub allocator : ℕ
  pub free_node_count : ℕ
  pub free_node_list : ℕ
  pub next : ℕ
  pub previous : ℕ

-- `records` is the array behind the pointer of that name, empty for a null pointer.
pub record MemoryArenaPool : Type 0 where
  pub region : MemoryRegion
  pub records : List ArenaRecord
  pub next_free_arena : ℕ
  pub arena_pool : ℕ
  pub arena_size : ℕ
  pub arena_reserved : ℕ
  pub arena_count : ℕ

-- What the platform answers while a region grows: the address of the reserved pages, and whether
-- pages are committed.
pub record Answers : Type 0 where
  pub reserved : ℕ
  pub committed : Bool

-- `sizeof(arena_record)`: six words
abbrev pub sizeof_arena_record : ℕ
sizeof_arena_record = 48

abbrev pub zero_record : ArenaRecord
zero_record = record {
  base = 0;
  allocator = 0;
  free_node_count = 0;
  free_node_list = 0;
  next = 0;
  previous = 0;
}

pub memory_arena_pool : Answers → ℕ → ℕ → MemoryArenaPool
memory_arena_pool answers arena_size_hint arena_count_hint =
    let record_size =
      max (max get_page_size get_granularity) (arena_count_hint * sizeof_arena_record % 2 ^ 64) in
    let arena_span_size = arena_size_hint * arena_count_hint % 2 ^ 64 in
    let grown =
      grow record_size answers.reserved answers.committed
        (memory_region ((record_size + arena_span_size) % 2 ^ 64)) in
    let empty : MemoryArenaPool = record {
      region = grown.2;
      records = [];
      next_free_arena = 0;
      arena_pool = 0;
      arena_size = arena_size_hint;
      arena_reserved = arena_count_hint;
      arena_count = 0;
    } in
    if grown.0 == 0 then empty else record empty {
      records = replicate (record_size / sizeof_arena_record) zero_record;
      arena_pool = grown.0 + record_size;
    }

-- What `p->` reads and writes; `none` is an access outside of the array.
unfoldable pub load : MemoryArenaPool → ℕ → Option ArenaRecord
load pool p = if p == 0 then none else get_elem? pool.records (p - 1)

pub store : MemoryArenaPool → ℕ → ArenaRecord → Option MemoryArenaPool
unfolding load
store pool p r = do _ ← load pool p; some (record pool { records = set pool.records (p - 1) r })

pub allocate_arena : Answers → MemoryArenaPool → Option (Bool × MemoryArenaPool)
unfolding load store
allocate_arena answers pool =
    let grown = grow pool.arena_size answers.reserved answers.committed pool.region in
    let larger = record pool { region = grown.2 } in
    if not (ltb pool.arena_count pool.arena_reserved)
    then some (false, pool)
    else if grown.0 == 0
    then some (false, larger)
    else (do
      r ← load larger (pool.arena_count + 1)
      stored ← store larger (pool.arena_count + 1) (record r {
        base = pool.arena_pool + pool.arena_count * pool.arena_size;
        next = pool.next_free_arena;
      })
      some (
        true,
        record stored {
          next_free_arena = pool.arena_count + 1;
          arena_count = pool.arena_count + 1;
        },
      ))

-- One round of the loop has its own answers; a round that fails is the last.
pub reserve : List Answers → MemoryArenaPool → Option (ℕ × MemoryArenaPool)
unfolding allocate_arena
reserve [] pool = some (0, pool)
reserve (answers ∷ rounds) pool = do
  (allocated, after) ← allocate_arena answers pool
  if allocated
      then (do (reserved, last) ← reserve rounds after; some (reserved + 1, last))
      else some (0, after)

-- The `else` branch of `take_arena`.
unfoldable pub pop_arena : MemoryArenaPool → Option (ℕ × MemoryArenaPool)
unfolding load
pop_arena pool = do
  r ← load pool pool.next_free_arena
  some (pool.next_free_arena, record pool { next_free_arena = r.next })

unfoldable pub take_arena : Answers → MemoryArenaPool → Option (ℕ × MemoryArenaPool)
unfolding allocate_arena pop_arena
take_arena answers pool =
    if pool.next_free_arena == 0
    then (do
      (allocated, after) ← allocate_arena answers pool
      if allocated then pop_arena after else some (0, after))
    else pop_arena pool

pub give_arena : ℕ → MemoryArenaPool → Option MemoryArenaPool
unfolding load store
give_arena p pool = do
  r ← load pool p
  stored ← store pool p (record r {
    allocator = 0;
    free_node_count = 0;
    free_node_list = 0;
    previous = 0;
    next = if pool.next_free_arena == 0 then r.next else pool.next_free_arena;
  })
  some (record stored { next_free_arena = p })

-- A pointer to the record, 0 for none.
unfoldable pub get_arena : ℕ → MemoryArenaPool → ℕ
get_arena pointer pool =
    let begin = pool.arena_pool in
    let past = pool.arena_pool + pool.arena_count * pool.arena_size in
    if leb begin pointer && ltb pointer past then (pointer - begin) / pool.arena_size + 1 else 0

abbrev pub get_arena_size : MemoryArenaPool → ℕ
get_arena_size pool = pool.arena_size

abbrev pub get_arena_count : MemoryArenaPool → ℕ
get_arena_count pool = pool.arena_count

abbrev pub get_reserved_arena_count : MemoryArenaPool → ℕ
get_reserved_arena_count pool = pool.arena_reserved
