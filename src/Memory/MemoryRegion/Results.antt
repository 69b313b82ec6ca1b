-- ===== src/Memory/MemoryRegion/Results.antt =====
-- memory_region.cpp: what `grow` returns.
use hologine.Base.{ℕ, ◌+◌, ◌-◌, ◌%◌, ◌^◌, ◌≤◌, ◌<◌, ◌≡◌, ◌≢◌, ◌⊎◌, Bool, false, [], arith}
use hologine.Memory.MemoryRegion.{MemoryRegion, page_count, grow_reserved, grow}
use hologine.Memory.MemoryRegion.Pages.{page_count_lem}

-- A call of `grow` on a region that has its reservation, where the sizes do not add up to 2 ^ 64:
-- it fails, returning a null pointer and leaving the region as it was, when the sum is above the
-- maximum or when more pages are needed and the platform does not commit them, and otherwise it
-- returns the start of the region and adds the size.
pub grow_lem :
    (size reserved : ℕ) (committed : Bool) (r : MemoryRegion)
    → size + r.current_size < 2 ^ 64
    → r.memory ≢ 0
    → (((r.max_size < size + r.current_size)
          ⊎ ((page_count r.current_size < page_count (size + r.current_size))
              × (committed ≡ false)))
        × ((grow size reserved committed r).0 ≡ 0)
        × ((grow size reserved committed r).2 ≡ r))
      ⊎ ((size + r.current_size ≤ r.max_size)
          × ((grow size reserved committed r).0 ≡ r.memory)
          × ((grow size reserved committed r).2
              ≡ record r { current_size = size + r.current_size }))
unfolding grow grow_reserved
grow_lem size reserved committed r l m =
    let e : (size + r.current_size) % 2 ^ 64 ≡ size + r.current_size = omega arith in
    ground (arith, e)

-- If the sizes add up to 2 ^ 64 or more, the sum wraps: on a region of at most 2 ^ 63 bytes that
-- has its reservation, `grow` then succeeds, commits nothing, and makes the region smaller.
pub grow-wraps :
    (size reserved : ℕ) (committed : Bool) (r : MemoryRegion)
    → size < 2 ^ 64
    → 2 ^ 64 ≤ size + r.current_size
    → r.current_size ≤ r.max_size
    → r.max_size ≤ 2 ^ 63
    → r.memory ≢ 0
    → (grow size reserved committed r
        ≡ (r.memory, [], record r { current_size = size + r.current_size - 2 ^ 64 }))
      × (size + r.current_size - 2 ^ 64 < r.current_size)
unfolding grow grow_reserved
grow-wraps size reserved committed r l w b s m =
    let e : (size + r.current_size) % 2 ^ 64 ≡ size + r.current_size - 2 ^ 64 = omega arith in
    ground (
      arith,
      e,
      page_count_lem r.current_size (omega arith),
      page_count_lem (size + r.current_size - 2 ^ 64) (omega arith),
    )
