-- ===== src/Memory/LinearAllocator/Blocks.antt =====
-- linear_allocator.cpp: where the blocks are.
use hologine.Base.{ℕ, ◌+◌, ◌-◌, ◌^◌, ◌≤◌, ◌<◌, ◌≡◌, refl, ◌⊎◌, inl, inr, none, some, arith}
use hologine.Exception.Codes.{ExceptionCode}
use hologine.Memory.Allocator.{align_pointer, get_pointer_distance}
use hologine.Memory.Allocator.Alignment.{
  align_pointer-bounds, align_pointer_self, get_pointer_distance_lem,
}
use hologine.Memory.LinearAllocator.{LinearAllocator, allocate, get_size}

-- A region that lies far enough below the end of the address space for the alignment and the size,
-- with the offset inside.
pub record HasRoom (k size : ℕ) (a : LinearAllocator) : Type 0 where
  pub alignment : k ≤ 63
  pub offset : a.memory_offset ≤ get_size a
  pub room : a.memory + get_size a + 2 ^ k + size < 2 ^ 64

abbrev pub aligned : ℕ → LinearAllocator → ℕ
aligned k a = align_pointer (a.memory + a.memory_offset) (2 ^ k)

-- In a region with room below the end of the address space for the alignment and the size, and
-- with the offset inside, `allocate` aligned to a power of two returns the first aligned address
-- behind the offset if the block ends before the region does, and moves the offset there;
-- otherwise it pushes `out_of_memory` and changes nothing.
pub allocate_lem :
    (k size : ℕ) (a : LinearAllocator)
    → HasRoom k size a
    → ((aligned k a + size < a.memory + get_size a)
        × (allocate size (2 ^ k) a
            ≡ (aligned k a, none, record a { memory_offset = aligned k a - a.memory })))
      ⊎ ((a.memory + get_size a ≤ aligned k a + size)
          × (allocate size (2 ^ k) a ≡ (0, some ExceptionCode.out_of_memory, a)))
unfolding allocate
allocate_lem k size a h =
    let b =
      align_pointer-bounds k (a.memory + a.memory_offset) h.alignment
        (omega (arith, h.offset, h.room)) in
    let d : get_pointer_distance (aligned k a) a.memory ≡ aligned k a - a.memory =
      get_pointer_distance_lem (aligned k a) a.memory (omega (arith, b))
        (omega (arith, b, h.offset, h.room)) in
    ground (arith, b, d, h.offset, h.room)

add_sub : (p q : ℕ) → p ≤ q → p + (q - p) ≡ q
add_sub p q h = omega arith

-- The block that `allocate` returns when it fits.
pub allocated :
    (k size : ℕ) (a : LinearAllocator)
    → HasRoom k size a
    → aligned k a + size < a.memory + get_size a
    → allocate size (2 ^ k) a
      ≡ (aligned k a, none, record a { memory_offset = aligned k a - a.memory })
allocated k size a h l = elim (allocate_lem k size a h) [
  | inl (m, e) ↦ e
  | inr (m, e) ↦ absurd (omega (arith, l, m))
]

-- In a region with room below the end of the address space, the offset is moved to the start of a
-- block and not behind it: after a block was allocated, the next one with the same power of two as
-- its alignment that fits at that place is returned at the same address.
pub allocate-overlap :
    (k size other : ℕ) (a : LinearAllocator)
    → HasRoom k size a
    → HasRoom k other a
    → aligned k a + size < a.memory + get_size a
    → aligned k a + other < a.memory + get_size a
    → ((allocate size (2 ^ k) a).0 ≡ aligned k a)
      × ((allocate other (2 ^ k) (allocate size (2 ^ k) a).2).0 ≡ aligned k a)
allocate-overlap k size other a h g l m =
    let b =
      align_pointer-bounds k (a.memory + a.memory_offset) h.alignment
        (omega (arith, h.offset, h.room)) in
    let first = allocated k size a h l in
    let moved : LinearAllocator = record a { memory_offset = aligned k a - a.memory } in
    let e : aligned k moved ≡ aligned k a = rw (add_sub a.memory (aligned k a) (omega (arith, b))) (
      align_pointer_self k (a.memory + a.memory_offset) h.alignment
        (omega (arith, h.offset, h.room)) (omega (arith, h.room, l))) in
    let room : HasRoom k other moved = record {
      alignment = g.alignment;
      offset = omega (arith, l);
      room = g.room;
    } in
    rw (first, allocated k other moved room (rw e m)) (refl, e)
