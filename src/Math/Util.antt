-- ===== src/Math/Util.antt =====
-- hologine/core/math/util.hpp: rounding, on `size_t`, whose operations wrap at 2 ^ 64.
pub mod Rounding
pub mod Powers
pub mod Smear
mod Tests
use hologine.Base.{ℕ, ◌+◌, ◌-◌, ◌/◌, ◌%◌, ◌^◌, bit_and, bit_or, Bool, not, ◌&&◌, ◌==◌}

-- `value + (factor - 1) - ((value - 1) % factor)`
pub round_up : ℕ → ℕ → ℕ
round_up value factor =
    (value + (factor + 2 ^ 64 - 1) + (2 ^ 64 - (value + 2 ^ 64 - 1) % 2 ^ 64 % factor)) % 2 ^ 64

pub multiple_of : ℕ → ℕ → ℕ
unfolding round_up
multiple_of value factor = round_up value factor / factor

abbrev pub modulo_power_of_two : ℕ → ℕ → ℕ
modulo_power_of_two x y = bit_and x ((y + 2 ^ 64 - 1) % 2 ^ 64)

-- On an unsigned integer of `w` bits: `value != 0 && !(value & ~(value - 1))`
pub is_power_of_two : ℕ → ℕ → Bool
is_power_of_two w value =
    not (value == 0) && bit_and value (2 ^ w - 1 - (value + 2 ^ w - 1) % 2 ^ w) == 0

-- `value |= value >> shift`
abbrev pub smear : ℕ → ℕ → ℕ
smear shift value = bit_or value (value / 2 ^ shift)

pub next_power_of_two : ℕ → ℕ
next_power_of_two value =
    (smear 16 (smear 8 (smear 4 (smear 2 (smear 1 ((value + 2 ^ 32 - 1) % 2 ^ 32))))) + 1) % 2 ^ 32

pub new_power_of_two : ℕ → ℕ
new_power_of_two value =
    (smear 32 (smear 16 (smear 8 (smear 4 (smear 2 (smear 1 ((value + 2 ^ 64 - 1) % 2 ^ 64))))))
      + 1)
    % 2 ^ 64
