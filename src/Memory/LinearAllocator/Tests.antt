-- ===== src/Memory/LinearAllocator/Tests.antt =====
-- The theorems on the linear allocator at a concrete allocator.
use hologine.Base.{ℕ, ◌^◌, ◌≤◌, ◌≡◌, refl, true, arith}
use hologine.Memory.LinearAllocator.{LinearAllocator, allocate, get_size, push_marker, pop_marker}
use hologine.Memory.LinearAllocator.Blocks.{HasRoom, aligned, allocated, allocate-overlap}
use hologine.Memory.Allocator.Alignment.{align_pointer_lem}
use hologine.Math.Util.Rounding.{round_up_lem}
use hologine.Memory.LinearAllocator.Markers.{pop_marker-push_marker}

abbrev used : LinearAllocator
used = record {
  region = record { max_size = 65536; current_size = 65536; memory = 4096 };
  memory = 4096;
  memory_offset = 20;
  current_marker = 0;
  cells = λ p. 0;
}

used-size : get_size used ≡ 65536
used-size = omega (arith, round_up_lem 65536 4096 (omega arith) (omega arith) (omega arith))

used-aligned : aligned 3 used ≡ 4120
used-aligned = omega (arith, align_pointer_lem 3 4116 (omega arith) (omega arith))

used-HasRoom : (size : ℕ) → size ≤ 1000 → HasRoom 3 size used
used-HasRoom size h = record {
  alignment = omega arith;
  offset = omega (arith, used-size);
  room = omega (arith, used-size);
}

allocate-overlap_example :
    ((allocate 100 (2 ^ 3) used).0 ≡ aligned 3 used)
    × ((allocate 50 (2 ^ 3) (allocate 100 (2 ^ 3) used).2).0 ≡ aligned 3 used)
allocate-overlap_example =
    allocate-overlap 3 100 50 used (used-HasRoom 100 (omega arith)) (used-HasRoom 50 (omega arith))
      (omega (arith, used-size, used-aligned)) (omega (arith, used-size, used-aligned))

pushed :
    ((push_marker used).0 ≡ true)
    × ((push_marker used).1.memory ≡ 4096)
    × ((push_marker used).1.memory_offset ≡ 24)
unfolding push_marker
pushed =
    let e =
      allocated 3 8 used (used-HasRoom 8 (omega arith)) (omega (arith, used-size, used-aligned)) in
    ground (arith, e, used-aligned)

pop_marker-push_marker_example :
    ((pop_marker (push_marker used).1).memory_offset ≡ 20)
    × ((pop_marker (push_marker used).1).current_marker ≡ 0)
pop_marker-push_marker_example =
    pop_marker-push_marker used (push_marker used).1 (omega arith) (omega arith)
      (used-HasRoom 8 (omega arith)) pushed.0 pushed.1 (omega (arith, pushed.2)) refl refl
