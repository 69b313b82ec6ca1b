-- ===== src/Memory/PoolAllocator.antt =====
-- hologine/core/memory/pool_allocator.cpp: objects of one size, on arenas of an arena pool.
pub mod Requests
pub mod Lazy
pub mod Objects
pub mod First
mod Tests
use hologine.Base.{
  ℕ, zero, suc, ◌+◌, ◌-◌, ◌/◌, ◌%◌, ◌^◌, max, Bool, true, false, not, Option, none, some, List, [],
  ◌∷◌, ltb, ◌==◌, if◌then◌else◌, ◌>>=◌,
}
use hologine.Container.IntrusiveList as IntrusiveList
use hologine.Exception.Codes.{ExceptionCode}
use hologine.Memory.PoolAllocator.Requests.{
  FreeNode, PoolAllocator, with_pool, write_node, on_arenas, get_first_free_node,
  request_empty_arena,
}
use hologine.Memory.MemoryArenaPool.{
  MemoryArenaPool, ArenaRecord, Answers, load, store, take_arena, give_arena, get_arena,
  get_arena_size,
}

-- The pointer `next` of `allocate`: the rest of a span of memory that was never handed out, or the
-- node behind; its previous node becomes that of the node handed out.
abbrev pub next_node : ℕ → FreeNode → PoolAllocator → Option (ℕ × PoolAllocator)
next_node node n a =
    let next = node + a.object_size in
    if ltb 1 n.size
    then (do
      a₁ ← write_node next (record { size = n.size - 1; next = node; previous = n.previous }) a
      some (next, a₁))
    else (do
      m ← a.nodes n.next
      a₁ ← write_node n.next (record m { previous = n.previous }) a
      some (n.next, a₁))

-- The free list of the arena, empty behind its last node.
abbrev pub shorten : ℕ → ℕ → ℕ → ArenaRecord → PoolAllocator → Option PoolAllocator
shorten arena previous next r a =
    if r.free_node_count == 0
    then (do
      pool ← store a.memory_arena_pool arena (record r { free_node_list = 0 })
      some (with_pool pool a))
    else (do
      m ← a.nodes previous
      a₁ ← write_node previous (record m { next = next }) a
      pool ← store a₁.memory_arena_pool arena (record r { free_node_list = next })
      some (with_pool pool a₁))

-- `allocate` behind the search for a node, null where the pool has no arena.
abbrev pub hand_out : ℕ → PoolAllocator → Option (ℕ × PoolAllocator)
hand_out node a =
    let arena = get_arena node a.memory_arena_pool in
    if node == 0 then none else if arena == 0 then none else (do
      n ← a.nodes node
      (next, a₁) ← next_node node n a
      n₁ ← a₁.nodes node
      r ← load a₁.memory_arena_pool arena
      a₂ ← shorten arena n₁.previous next r a₁
      some (node, a₂))

-- The exceptions that are pushed, the pointer, and the allocator.
unfoldable pub allocate :
    ℕ → Answers → ℕ → PoolAllocator → Option (List ExceptionCode × ℕ × PoolAllocator)
unfolding get_first_free_node request_empty_arena
allocate fuel answers size a =
    if ltb a.object_size size
    then some (ExceptionCode.invalid_argument ∷ [], 0, a)
    else get_first_free_node fuel a.arena_list_head a >>= λ found. elim (found.0 == 0) [
      | false ↦ do (p, a₁) ← hand_out found.0 found.1; some ([], p, a₁)
      | true ↦ request_empty_arena answers found.1 >>= λ requested. elim (requested.0 == 0) [
        | true ↦ some ([], 0, requested.1)
        | false ↦ do
          (node, a₁) ← get_first_free_node fuel requested.0 requested.1
          (p, a₂) ← hand_out node a₁
          some ([], p, a₂)
      ]
    ]

-- The arena is full of free nodes again: it leaves the list and goes back to the pool.
abbrev pub return_arena : ℕ → PoolAllocator → Option PoolAllocator
return_arena arena a = do
  a₁ ← on_arenas (IntrusiveList.remove arena) a
  r ← load a₁.memory_arena_pool arena
  pool ← give_arena arena a₁.memory_arena_pool
  some (record a₁ {
    memory_arena_pool = pool;
    arena_list_head = if a₁.arena_list_head == arena then r.next else a₁.arena_list_head;
    arena_list_tail = if a₁.arena_list_tail == arena then r.next else a₁.arena_list_tail;
  })

-- The node that is written where the arena stays: the pointer is an offset by now, and not an address.
abbrev pub free_node : ℕ → ArenaRecord → PoolAllocator → Option PoolAllocator
free_node pointer r a =
    if r.free_node_list == 0
    then write_node pointer (record { size = 1; next = pointer; previous = pointer }) a
    else (do
      m ← a.nodes r.free_node_list
      write_node pointer (record { size = 1; next = r.free_node_list; previous = m.previous }) a)

abbrev pub kept : MemoryArenaPool → ℕ → ℕ → ArenaRecord → PoolAllocator → Option PoolAllocator
kept pool arena offset r a =
    if r.free_node_count == a.object_count
    then return_arena arena (with_pool pool a)
    else free_node offset r (with_pool pool a)

-- `deallocate` on the record of the arena.
abbrev pub give_back : ℕ → ℕ → ArenaRecord → PoolAllocator → Option PoolAllocator
give_back pointer arena r a =
    let offset = (pointer + 2 ^ 64 - r.base) % 2 ^ 64 % a.object_size in
    let r' = record r { free_node_count = (r.free_node_count + 1) % 2 ^ 64 } in
    if not (r.allocator == a.address)
    then none
    else (do pool ← store a.memory_arena_pool arena r'; kept pool arena offset r' a)

-- `none` is a failed assertion, too.
pub deallocate : ℕ → PoolAllocator → Option PoolAllocator
deallocate pointer a =
    let arena = get_arena pointer a.memory_arena_pool in
    load a.memory_arena_pool arena >>= λ r. give_back pointer arena r a

abbrev pub get_object_size : PoolAllocator → ℕ
get_object_size a = a.object_size

abbrev pub get_object_count : PoolAllocator → ℕ
get_object_count a = a.object_count

-- The loop of the destructor over the arenas.
abbrev pub destroy : ℕ → ℕ → PoolAllocator → Option PoolAllocator
destroy zero current a = none
destroy (suc fuel) current a = elim (current == 0) [
  | true ↦ some a
  | false ↦ do
    r ← load a.memory_arena_pool current
    pool ← give_arena current a.memory_arena_pool
    destroy fuel r.next (with_pool pool a)
]
