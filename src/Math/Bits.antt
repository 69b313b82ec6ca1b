-- ===== src/Math/Bits.antt =====
-- hologine/core/math/bits.hpp. A word is a number below 2 ^ 16, 2 ^ 32 or 2 ^ 64; a shift to the
-- left drops the bits that leave the word.
pub mod Swap
pub mod Rotate
use hologine.Base.{
  ℕ, ◌*◌, ◌-◌, ◌/◌, ◌%◌, ◌^◌, ◌||◌, Option, none, some, ◌==◌, leb, if◌then◌else◌, bit_and, bit_or,
}

-- `(value >> 8) | (value << 8)`, an `int` that is returned as a `uint16_t`
pub swap_bytes16 : ℕ → ℕ
swap_bytes16 value = bit_or (value / 2 ^ 8) (value * 2 ^ 8) % 2 ^ 16

pub swap_bytes32 : ℕ → ℕ
swap_bytes32 value =
    bit_or
      (bit_or (bit_or (value * 2 ^ 24 % 2 ^ 32) (bit_and (value / 2 ^ 24) 0xff))
        (bit_and value 0x0000ff00 * 2 ^ 8 % 2 ^ 32))
      (bit_and value 0x00ff0000 / 2 ^ 8)

pub swap_bytes64 : ℕ → ℕ
swap_bytes64 value =
    bit_or
      (bit_or
        (bit_or
          (bit_or
            (bit_or
              (bit_or
                (bit_or (value * 2 ^ 56 % 2 ^ 64)
                  (bit_and (value * 2 ^ 40 % 2 ^ 64) 0x00ff000000000000))
                (bit_and (value * 2 ^ 24 % 2 ^ 64) 0x0000ff0000000000))
              (bit_and (value * 2 ^ 8 % 2 ^ 64) 0x000000ff00000000))
            (bit_and (value / 2 ^ 8) 0x00000000ff000000))
          (bit_and (value / 2 ^ 24) 0x0000000000ff0000))
        (bit_and (value / 2 ^ 40) 0x000000000000ff00))
      (value / 2 ^ 56)

-- On words of `w` bits, without the intrinsics; `none` is a shift by the width of the word or more.
abbrev pub rotate_left : ℕ → ℕ → ℕ → Option ℕ
rotate_left w value shift =
    if shift == 0 || leb w shift
    then none
    else some (bit_or (value * 2 ^ shift % 2 ^ w) (value / 2 ^ (w - shift)))

abbrev pub rotate_right : ℕ → ℕ → ℕ → Option ℕ
rotate_right w value shift =
    if shift == 0 || leb w shift
    then none
    else some (bit_or (value / 2 ^ shift) (value * 2 ^ (w - shift) % 2 ^ w))

pub bit_rotate_left32 : ℕ → ℕ → Option ℕ
bit_rotate_left32 value shift = rotate_left 32 value shift

pub bit_rotate_right32 : ℕ → ℕ → Option ℕ
bit_rotate_right32 value shift = rotate_right 32 value shift

pub bit_rotate_left64 : ℕ → ℕ → Option ℕ
bit_rotate_left64 value shift = rotate_left 64 value shift

pub bit_rotate_right64 : ℕ → ℕ → Option ℕ
bit_rotate_right64 value shift = rotate_right 64 value shift

-- `scan` is `bit_scan_reverse`, an intrinsic of the compiler.
abbrev pub bit_log2 : (ℕ → ℕ) → ℕ → ℕ
bit_log2 scan value = scan (bit_or value 1)
