-- ===== src/Memory/PoolAllocator/Requests.antt =====
-- hologine/core/memory/pool_allocator.cpp: the arenas of a pool allocator, and its search for a node.
use hologine.Base.{
  ℕ, zero, suc, ◌+◌, ◌-◌, ◌/◌, ◌%◌, ◌^◌, max, true, false, Option, none, some, List, [], ◌∷◌, ◌==◌,
  if◌then◌else◌, ◌>>=◌,
}
use hologine.Container.IntrusiveList as IntrusiveList
use hologine.Memory.MemoryArenaPool.{
  MemoryArenaPool, ArenaRecord, Answers, load, store, take_arena, get_arena, get_arena_size,
}

pub record FreeNode : Type 0 where
  pub next : ℕ
  pub previous : ℕ
  pub size : ℕ

-- `nodes` is what pointers to free nodes lead to; `address` is the allocator's own.
pub record PoolAllocator : Type 0 where
  pub arena_list_head : ℕ
  pub arena_list_tail : ℕ
  pub memory_arena_pool : MemoryArenaPool
  pub object_size : ℕ
  pub object_count : ℕ
  pub address : ℕ
  pub nodes : ℕ → Option FreeNode

-- `sizeof(free_node)`: three words
abbrev pub sizeof_free_node : ℕ
sizeof_free_node = 24

-- `none` is a division by zero: by the parameter, and not by the member, which is at least the size
-- of a node.
abbrev pub pool_allocator : ℕ → MemoryArenaPool → ℕ → Option PoolAllocator
pool_allocator address pool object_size =
    if object_size == 0
    then none
    else some (record {
      arena_list_head = 0;
      arena_list_tail = 0;
      memory_arena_pool = pool;
      object_size = max object_size sizeof_free_node;
      object_count = get_arena_size pool / object_size;
      address = address;
      nodes = λ p. none;
    })

abbrev pub with_pool : MemoryArenaPool → PoolAllocator → PoolAllocator
with_pool pool a = record a { memory_arena_pool = pool }

-- A node may be written inside of an arena, and nowhere else.
abbrev pub write_node : ℕ → FreeNode → PoolAllocator → Option PoolAllocator
write_node p n a =
    if get_arena p a.memory_arena_pool == 0
    then none
    else some (record a { nodes = λ q. if q == p then some n else a.nodes q })

-- The records of the arenas as nodes of a list, and the records with the pointers of such nodes.
abbrev pub arena_nodes : MemoryArenaPool → IntrusiveList.Heap
arena_nodes pool p = do r ← load pool p; some (IntrusiveList.node r.next r.previous)

abbrev pub relinked : ℕ → List ArenaRecord → IntrusiveList.Heap → List ArenaRecord
relinked p [] h = []
relinked p (r ∷ rs) h =
    elim (h p) [ none ↦ r | some n ↦ record r { next = n.next; previous = n.previous } ]
    ∷ relinked (p + 1) rs h

-- An operation of the intrusive list on the arenas.
abbrev pub on_arenas :
    (IntrusiveList.Heap → Option (ℕ × IntrusiveList.Heap)) → PoolAllocator → Option PoolAllocator
on_arenas operation a = do
  (p, h) ← operation (arena_nodes a.memory_arena_pool)
  some (
      with_pool (record a.memory_arena_pool { records = relinked 1 a.memory_arena_pool.records h })
        a)

-- The fuel bounds the list of arenas; `none` is an access outside of the records, too.
unfoldable pub get_first_free_node : ℕ → ℕ → PoolAllocator → Option (ℕ × PoolAllocator)
get_first_free_node zero arena a = none
get_first_free_node (suc fuel) arena a = elim (arena == 0) [
  | true ↦ some (0, a)
  | false ↦ load a.memory_arena_pool arena >>= λ r. elim (r.free_node_list == 0) [
    | true ↦ get_first_free_node fuel r.next a
    | false ↦ do
      pool ←
          store a.memory_arena_pool arena
            (record r { free_node_count = (r.free_node_count + 2 ^ 64 - 1) % 2 ^ 64 })
      some (r.free_node_list, with_pool pool a)
  ]
]

-- The new arena at the end of the list; the list's tail stays where it was, unless it was null.
abbrev pub link_arena : ℕ → PoolAllocator → Option PoolAllocator
link_arena arena a =
    if a.arena_list_tail == 0
    then some (record a { arena_list_head = arena; arena_list_tail = arena })
    else on_arenas (IntrusiveList.insert_after arena a.arena_list_tail) a

-- `request_empty_arena` behind the request: the arena is one free node of all its objects.
abbrev pub prepared : ℕ → PoolAllocator → Option (ℕ × PoolAllocator)
prepared arena a = if arena == 0 then some (0, a) else (do
  r ← load a.memory_arena_pool arena
  pool ← store a.memory_arena_pool arena (record r {
    allocator = a.address;
    free_node_count = a.object_count;
    free_node_list = r.base;
  })
  a₁ ←
      write_node r.base (record { size = a.object_count; next = r.base; previous = r.base })
        (with_pool pool a)
  a₂ ← link_arena arena a₁
  some (arena, a₂))

unfoldable pub request_empty_arena : Answers → PoolAllocator → Option (ℕ × PoolAllocator)
request_empty_arena answers a = do
  (arena, pool) ← take_arena answers a.memory_arena_pool
  prepared arena (with_pool pool a)
