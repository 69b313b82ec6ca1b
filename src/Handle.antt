-- ===== src/Handle.antt =====
-- hologine/core/handle.hpp, with the masks of core/math/bits.hpp: the fields of a handle.
pub mod Fields
mod Tests
use hologine.Base.{ℕ, ◌+◌, ◌-◌, ◌*◌, ◌/◌, ◌%◌, ◌^◌, bit_and, bit_or, Bool, ◌==◌, if◌then◌else◌}

-- The template parameters of `handle_definition`, in its order.
pub record HandleDefinition : Type 0 where
  pub type : ℕ
  pub age : ℕ
  pub scope : ℕ
  pub index : ℕ

-- `math::mask<N>`. The shift is one of an `int`: with N above 29 the constant does not compile.
pub mask : ℕ → ℕ
mask n = if n == 0 then 0 else 2 ^ (n + 1) - 1

-- `x << n` on `size_t`
abbrev pub shift_left : ℕ → ℕ → ℕ
shift_left x n = x * 2 ^ n % 2 ^ 64

abbrev pub age_shift : HandleDefinition → ℕ
age_shift d = d.index + d.scope

pub encode : HandleDefinition → ℕ → ℕ → ℕ → ℕ
unfolding mask
encode d age scope index =
    let encoded_type = shift_left (bit_and d.type 0xff) 56 in
    let encoded_age = shift_left (bit_and age (mask d.age)) (age_shift d) in
    let encoded_scope = shift_left (bit_and scope (mask d.scope)) d.index in
    let encoded_index = shift_left (bit_and index (mask d.index)) 0 in
    bit_or (bit_or (bit_or encoded_type encoded_age) encoded_scope) encoded_index

pub is_type : HandleDefinition → ℕ → Bool
is_type d handle = bit_and (handle / 2 ^ 56) 0xff == d.type

pub decode_age : HandleDefinition → ℕ → ℕ
unfolding mask
decode_age d handle = bit_and (handle / 2 ^ age_shift d) (mask d.age)

pub decode_scope : HandleDefinition → ℕ → ℕ
unfolding mask
decode_scope d handle = bit_and (handle / 2 ^ d.index) (mask d.scope)

pub decode_index : HandleDefinition → ℕ → ℕ
unfolding mask
decode_index d handle = bit_and (handle / 2 ^ 0) (mask d.index)

abbrev pub increment_age : HandleDefinition → ℕ → ℕ
unfolding mask
increment_age d age = age % mask d.age + 1
