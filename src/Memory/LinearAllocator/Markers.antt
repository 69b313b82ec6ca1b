-- ===== src/Memory/LinearAllocator/Markers.antt =====
-- linear_allocator.cpp: markers.
use hologine.Base.{◌+◌, ◌-◌, ◌≡◌, ◌≢◌, ◌⊎◌, inl, inr, true, false, arith}
use hologine.Memory.Allocator.{align_pointer}
use hologine.Memory.Allocator.Alignment.{align_pointer-bounds}
use hologine.Memory.LinearAllocator.{LinearAllocator, store, push_marker, pop_marker}
use hologine.Memory.LinearAllocator.Blocks.{HasRoom, aligned, allocate_lem}

-- What `push_marker` does to an allocator whose offset is not 0: it fails and changes nothing when
-- the word for the old marker does not fit, and else stores it at the next aligned address.
push_marker_lem :
    (a : LinearAllocator)
    → a.memory ≢ 0
    → a.memory_offset ≢ 0
    → HasRoom 3 8 a
    → (push_marker a ≡ (false, a))
      ⊎ (push_marker a ≡ (
        true,
        record a {
          memory_offset = aligned 3 a - a.memory;
          current_marker = a.memory_offset;
          cells = store a.cells (aligned 3 a) a.current_marker;
        },
      ))
unfolding push_marker
push_marker_lem a z n h =
    let b =
      align_pointer-bounds 3 (a.memory + a.memory_offset) (omega arith)
        (omega (arith, h.offset, h.room)) in
    elim (allocate_lem 3 8 a h) [
      | inl (m, e) ↦ inr (ground (arith, e, b, z, n))
      | inr (m, e) ↦ inl (ground (arith, e, n))
    ]

-- On an allocator that has its memory, with room for a word below the end of the address space and
-- an offset other than 0, popping undoes a `push_marker` that succeeded: it brings back the offset
-- and the marker from every later state with the same memory and the marker that was pushed, whose
-- offset is not 0, and in which the word of the marker was not written over.
pub pop_marker-push_marker :
    (a c : LinearAllocator)
    → a.memory ≢ 0
    → a.memory_offset ≢ 0
    → HasRoom 3 8 a
    → (push_marker a).0 ≡ true
    → c.memory ≡ a.memory
    → c.memory_offset ≢ 0
    → c.current_marker ≡ (push_marker a).1.current_marker
    → c.cells (aligned 3 a) ≡ (push_marker a).1.cells (aligned 3 a)
    → ((pop_marker c).memory_offset ≡ a.memory_offset)
      × ((pop_marker c).current_marker ≡ a.current_marker)
unfolding pop_marker
pop_marker-push_marker a c z n h p m o k w = elim (push_marker_lem a z n h) [
  | inl e ↦ absurd (ground (arith, e, p))
  | inr e ↦
      let marker : c.current_marker ≡ a.memory_offset = rw e at k in
      let word : c.cells (aligned 3 a) ≡ a.current_marker = ground (arith, (rw e at w)) in
      let word_at : c.cells (align_pointer (c.memory + c.current_marker) 8) ≡ a.current_marker =
        rw (m, marker) word in
      ground (arith, o, n, marker, word_at)
]
