-- ===== src/Memory/LinearAllocator.antt =====
-- hologine/core/memory/linear_allocator.cpp: an allocator that moves an offset through a region.
pub mod Blocks
pub mod Markers
mod Tests
use hologine.Base.{
  ℕ, ◌+◌, ◌%◌, ◌^◌, Bool, true, false, Option, none, some, ltb, ◌==◌, if◌then◌else◌,
}
use hologine.Exception.Codes.{ExceptionCode}
use hologine.Memory.Allocator.{align_pointer, get_pointer_distance}
use hologine.Memory.MemoryRegion.{MemoryRegion, memory_region, claim, get_current_size}

-- `cells` is the memory as far as it holds words of the type `size_t`.
pub record LinearAllocator : Type 0 where
  pub region : MemoryRegion
  pub memory : ℕ
  pub memory_offset : ℕ
  pub current_marker : ℕ
  pub cells : ℕ → ℕ

-- `stale` is what `current_marker` holds, which the constructor does not set. The answers are
-- those of the platform while the region is claimed; the exception that is pushed is returned,
-- if there is one.
abbrev pub linear_allocator : ℕ → (ℕ → ℕ) → ℕ → Bool → ℕ → Option ExceptionCode × LinearAllocator
linear_allocator stale cells reserved committed size =
    let claimed = claim reserved committed (memory_region size) in
    (
      if claimed.0 == 0 then some ExceptionCode.out_of_memory else none,
      record {
        region = claimed.2;
        memory = claimed.0;
        memory_offset = 0;
        current_marker = stale;
        cells = cells;
      },
    )

abbrev pub get_size : LinearAllocator → ℕ
get_size a = get_current_size a.region

-- The pointer, 0 for a null pointer, and the exception that is pushed, if there is one.
pub allocate : ℕ → ℕ → LinearAllocator → ℕ × Option ExceptionCode × LinearAllocator
allocate size alignment a =
    let current_offset_pointer = align_pointer (a.memory + a.memory_offset) alignment in
    let requested_memory_offset = get_pointer_distance current_offset_pointer a.memory in
    if ltb ((requested_memory_offset + size) % 2 ^ 64) (get_size a)
    then (
      a.memory + requested_memory_offset,
      none,
      record a { memory_offset = requested_memory_offset },
    )
    else (0, some ExceptionCode.out_of_memory, a)

-- `sizeof(std::size_t)` and `alignof(std::size_t)`
abbrev pub sizeof_size_t : ℕ
sizeof_size_t = 8

abbrev pub store : (ℕ → ℕ) → ℕ → ℕ → ℕ → ℕ
store cells p value q = if q == p then value else cells q

pub push_marker : LinearAllocator → Bool × LinearAllocator
unfolding allocate
push_marker a =
    let marker = allocate sizeof_size_t sizeof_size_t a in
    if a.memory_offset == 0 then (true, a) else if marker.0 == 0 then (false, marker.2) else (
      true,
      record marker.2 {
        current_marker = a.memory_offset;
        cells = store a.cells marker.0 a.current_marker;
      },
    )

abbrev pub reset : LinearAllocator → LinearAllocator
reset a = record a { memory_offset = 0; current_marker = 0 }

pub pop_marker : LinearAllocator → LinearAllocator
pop_marker a =
    let previous_marker = a.cells (align_pointer (a.memory + a.current_marker) sizeof_size_t) in
    if a.memory_offset == 0
    then a
    else if a.current_marker == 0
    then reset a
    else record a { memory_offset = a.current_marker; current_marker = previous_marker }
