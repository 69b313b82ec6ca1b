-- ===== src/Math/Util/Tests.antt =====
-- Runs of hologine/core/math/util.hpp and bits.hpp.
use hologine.Base.{◌≡◌, refl, some, ◌>>=◌, arith}
use hologine.Math.Util.{next_power_of_two, new_power_of_two}
use hologine.Math.Util.Powers.{next_power_of_two_lem, IsNextPower}
use hologine.Math.Bits.{
  bit_rotate_left32, bit_rotate_right32, bit_rotate_left64, bit_rotate_right64,
}
use hologine.Math.Bits.Rotate.{bit_rotate_right-bit_rotate_left}

next_power_of_two_runs : next_power_of_two 1000 ≡ 1024
unfolding next_power_of_two
next_power_of_two_runs = refl

next_power_of_two_lem_example :
    IsNextPower 1000 (next_power_of_two 1000) × IsNextPower 65 (new_power_of_two 65)
next_power_of_two_lem_example =
    next_power_of_two_lem 1000 65 (omega arith) (omega arith) (omega arith) (omega arith)

bit_rotate_right-bit_rotate_left_example :
    ((bit_rotate_left32 0xdeadbeef 12 >>= λ r. bit_rotate_right32 r 12) ≡ some 0xdeadbeef)
    × ((bit_rotate_left64 99 40 >>= λ r. bit_rotate_right64 r 40) ≡ some 99)
bit_rotate_right-bit_rotate_left_example =
    bit_rotate_right-bit_rotate_left 0xdeadbeef 12 99 40 (omega arith) (omega arith) (omega arith)
      (omega arith) (omega arith) (omega arith)
