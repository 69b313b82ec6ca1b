-- ===== src/Memory/FixedAllocator.antt =====
-- hologine/core/memory/fixed_allocator.cpp: blocks of one size, the free ones on a list that is
-- kept in the blocks themselves.
pub mod FreeNodes
pub mod Reserve
mod Tests
use hologine.Base.{
  ℕ, zero, suc, ◌+◌, ◌-◌, ◌*◌, ◌/◌, ◌%◌, ◌^◌, Bool, Option, none, some, ltb, ◌==◌, if◌then◌else◌,
  ◌>>=◌, leb, ◌&&◌,
}
use hologine.Exception.Codes.{ExceptionCode}
use hologine.Math.Util.{modulo_power_of_two, round_up}
use hologine.Memory.Allocator.{align_pointer, get_pointer_distance}
use hologine.Memory.MemoryArenaPool.{Answers}
use hologine.Memory.MemoryRegion.{MemoryRegion, memory_region, claim, get_current_size}

-- The memory as far as it holds free nodes: the `next` that stands at an address.
abbrev pub Memory : Type 0
Memory = ℕ → ℕ

-- `accessible` tells of an address whether the word there lies in committed pages; an access to
-- another one is a fault, `none`.
pub record FixedAllocator : Type 0 where
  pub free_nodes : ℕ
  pub object_size : ℕ
  pub memory : Memory
  pub accessible : ℕ → Bool

abbrev pub store : Memory → ℕ → ℕ → Memory
store m p next q = if q == p then next else m q

-- `sizeof(free_node)`: one word
abbrev pub sizeof_free_node : ℕ
sizeof_free_node = 8

-- The `next` of the node at an address.
abbrev pub load : ℕ → FixedAllocator → Option ℕ
load p a = if a.accessible p then some (a.memory p) else none

-- The pointer, 0 for a null pointer, and the exception that is pushed, if there is one.
pub allocate : ℕ → FixedAllocator → Option (ℕ × Option ExceptionCode × FixedAllocator)
allocate size a =
    if ltb a.object_size size
    then some (0, some ExceptionCode.invalid_argument, a)
    else if a.free_nodes == 0
    then some (0, some ExceptionCode.out_of_memory, a)
    else (do next ← load a.free_nodes a; some (a.free_nodes, none, record a { free_nodes = next }))

pub deallocate : ℕ → FixedAllocator → Option FixedAllocator
deallocate pointer a =
    if a.accessible pointer
    then some (record a { free_nodes = pointer; memory = store a.memory pointer a.free_nodes })
    else none

-- The loop of the constructor, from `current_node` down, as long as it lies above `base_memory`.
-- `none` is a loop that takes more rounds than the fuel, or a node outside of the committed pages.
pub reserve_nodes : ℕ → ℕ → ℕ → ℕ → FixedAllocator → Option FixedAllocator
unfolding deallocate
reserve_nodes zero base_memory node_size current_node a =
    if ltb base_memory current_node then none else some a
reserve_nodes (suc fuel) base_memory node_size current_node a =
    let rest = (do
      a' ← deallocate current_node a
      reserve_nodes fuel base_memory node_size ((current_node + 2 ^ 64 - node_size) % 2 ^ 64) a') in
    if ltb base_memory current_node then rest else some a

-- The size of a node with its padding.
abbrev pub padded : ℕ → ℕ → ℕ
padded object_size alignment =
    if modulo_power_of_two object_size alignment == 0
    then object_size
    else round_up object_size alignment

-- The constructor behind the claim of the region: `stale` is what `node_count` holds, by which the
-- span is divided; `none` is a division by zero, too.
abbrev pub reserve_span : ℕ → ℕ → ℕ → ℕ → ℕ → FixedAllocator → Option FixedAllocator
reserve_span fuel stale base_memory max_size alignment a =
    let memory = align_pointer base_memory alignment in
    let node_size = padded a.object_size alignment in
    let node_span_size = (max_size + 2 ^ 64 - get_pointer_distance memory base_memory) % 2 ^ 64 in
    let node_count = node_span_size / stale in
    let current_node = (memory + (node_count + 2 ^ 64 - 1) * node_size) % 2 ^ 64 in
    if stale == 0 then none else reserve_nodes fuel base_memory node_size current_node a

-- A word lies in the pages that are committed from the first address of the region on.
abbrev pub holds_word : ℕ → ℕ → ℕ → Bool
holds_word base_memory size p = leb base_memory p && leb (p + sizeof_free_node) (base_memory + size)

-- `memory` is what the region's pages hold, the answers what the platform says to the claim.
abbrev pub fixed_allocator :
    ℕ → Answers → ℕ → Memory → ℕ → ℕ → ℕ → Option (MemoryRegion × FixedAllocator)
fixed_allocator fuel answers stale memory size object_size alignment =
    let (base_memory, calls, region) =
      claim answers.reserved answers.committed (memory_region size) in
    let empty : FixedAllocator = record {
      free_nodes = 0;
      object_size = object_size;
      memory = memory;
      accessible = holds_word base_memory (get_current_size region);
    } in
    if ltb object_size sizeof_free_node
    then none
    else if base_memory == 0
    then some (region, empty)
    else (do
      a ← reserve_span fuel stale base_memory (get_current_size region) alignment empty
      some (region, a))
