-- ===== src/Memory/Allocator.antt =====
-- hologine/core/memory/allocator.cpp: pointer arithmetic, on 64-bit addresses.
pub mod Alignment
pub mod Arrays
use hologine.Base.{ℕ, ◌+◌, ◌-◌, ◌%◌, ◌^◌, bit_and}

-- `(pointer + (align - 1)) & ~(align - 1)`
unfoldable pub align_pointer : ℕ → ℕ → ℕ
align_pointer pointer align =
    let offset = (align + 2 ^ 64 - 1) % 2 ^ 64 in
    bit_and ((pointer + offset) % 2 ^ 64) (2 ^ 64 - 1 - offset)

unfoldable pub get_pointer_distance : ℕ → ℕ → ℕ
get_pointer_distance left right = (left + 2 ^ 64 - right) % 2 ^ 64
