-- ===== src/Text/Utf8/Values.antt =====
-- utf8.cpp: the bit operations of the switch in `utf8_increment`, as sums of the bytes' fields.
use hologine.Base.{ℕ, ◌+◌, ◌*◌, ◌%◌, ◌^◌, ◌<◌, ◌≡◌, arith, bit_and}
use hologine.Base.Bits.{and_mask, and_field, or_fields, bit_or-zero, bit_or_comm}
use hologine.Text.Utf8.{value_of_two, value_of_three, value_of_four}

pub value_of_two_lem :
    (lead second : ℕ) → value_of_two lead second ≡ lead % 2 ^ 5 * 2 ^ 6 + second % 2 ^ 6
unfolding value_of_two
value_of_two_lem lead second =
    ground (arith, and_mask 5 lead, and_mask 6 second, or_fields 6 (lead % 2 ^ 5) (second % 2 ^ 6))

pub value_of_three_lem :
    (lead second third : ℕ)
    → value_of_three lead second third
      ≡ lead % 2 ^ 4 * 2 ^ 12 + second % 2 ^ 6 * 2 ^ 6 + third % 2 ^ 6
unfolding value_of_three
value_of_three_lem lead second third = ground (
  arith,
  and_mask 4 lead,
  and_mask 6 second,
  and_mask 6 third,
  or_fields 12 (lead % 2 ^ 4) (second % 2 ^ 6 * 2 ^ 6),
  or_fields 6 (lead % 2 ^ 4 * 2 ^ 6 + second % 2 ^ 6) (third % 2 ^ 6),
)

lead_bits : (lead : ℕ) → lead < 2 ^ 8 → bit_and lead (0x07 * 2 ^ 18) ≡ 0
lead_bits lead h = omega (arith, and_field 18 3 lead)

-- The lead byte of a sequence of four contributes nothing, and the second byte stands for the third.
pub value_of_four_lem :
    (lead second fourth : ℕ)
    → lead < 2 ^ 8
    → value_of_four lead second fourth
      ≡ second % 2 ^ 6 * 2 ^ 12 + second % 2 ^ 6 * 2 ^ 6 + fourth % 2 ^ 6
unfolding value_of_four
value_of_four_lem lead second fourth h = ground (
  arith,
  lead_bits lead h,
  and_mask 6 second,
  and_mask 6 fourth,
  bit_or_comm 0 (second % 2 ^ 6 * 2 ^ 12),
  bit_or-zero (second % 2 ^ 6 * 2 ^ 12),
  or_fields 12 (second % 2 ^ 6) (second % 2 ^ 6 * 2 ^ 6),
  or_fields 6 (second % 2 ^ 6 * 2 ^ 6 + second % 2 ^ 6) (fourth % 2 ^ 6),
)
