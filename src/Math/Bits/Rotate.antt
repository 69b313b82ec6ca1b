-- ===== src/Math/Bits/Rotate.antt =====
-- bits.hpp: rotations.
use hologine.Base.{ℕ, ◌+◌, ◌-◌, ◌*◌, ◌/◌, ◌%◌, ◌^◌, ◌<◌, ◌≡◌, ap, ◌∙◌, some, ◌>>=◌, bit_or, arith}
use native.Mathlib.Nat.{
  div-lt_iff_lt-mul, add-mul-mod_self_right, one-le-pow, mod-lt, mod-add-div', mod-eq_of_lt,
}
use hologine.Base.Bits.{bit_or_comm, or_fields, pow_add, quotient, mul_add_lt}
use hologine.Math.Bits.{
  rotate_left, rotate_right, bit_rotate_left32, bit_rotate_right32, bit_rotate_left64,
  bit_rotate_right64,
}

-- The high `j` bits `a` and the low `k` bits `b` change places.
swapped :
    (w j k a b : ℕ)
    → j + k ≡ w
    → a < 2 ^ j
    → b < 2 ^ k
    → bit_or ((a * 2 ^ k + b) * 2 ^ j % 2 ^ w) ((a * 2 ^ k + b) / 2 ^ k) ≡ b * 2 ^ j + a
swapped w j k a b e ha hb =
    let whole : 2 ^ w ≡ 2 ^ j * 2 ^ k = rw (← e) (pow_add j k) in
    let fits : b * 2 ^ j + 0 < 2 ^ k * 2 ^ j =
      mul_add_lt (2 ^ k) (2 ^ j) b 0 hb (one-le-pow j 2 (omega arith)) in
    let moved : (a * 2 ^ k + b) * 2 ^ j ≡ b * 2 ^ j + a * 2 ^ w = rw whole (omega arith) in
    let high : (a * 2 ^ k + b) * 2 ^ j % 2 ^ w ≡ b * 2 ^ j = rw moved (
      add-mul-mod_self_right (b * 2 ^ j) a (2 ^ w)
      ∙ mod-eq_of_lt (rw whole (omega (arith, fits)))) in
    rw (high, quotient (2 ^ k) a b hb) (or_fields j b a ha)

swapped_right :
    (w j k a b : ℕ)
    → j + k ≡ w
    → a < 2 ^ j
    → b < 2 ^ k
    → bit_or ((a * 2 ^ k + b) / 2 ^ k) ((a * 2 ^ k + b) * 2 ^ j % 2 ^ w) ≡ b * 2 ^ j + a
swapped_right w j k a b e ha hb =
    bit_or_comm ((a * 2 ^ k + b) / 2 ^ k) ((a * 2 ^ k + b) * 2 ^ j % 2 ^ w)
    ∙ swapped w j k a b e ha hb

high : (w j k value : ℕ) → j + k ≡ w → value < 2 ^ w → value / 2 ^ k < 2 ^ j
high w j k value e h =
    let whole : 2 ^ w ≡ 2 ^ j * 2 ^ k = rw (← e) (pow_add j k) in
    let below : value < 2 ^ j * 2 ^ k = rw (← whole) h in
    (div-lt_iff_lt-mul {k = 2 ^ k} (one-le-pow k 2 (omega arith))).1 below

rotate_right-rotate_left :
    (w value shift : ℕ)
    → 0 < shift
    → shift < w
    → value < 2 ^ w
    → (rotate_left w value shift >>= λ r. rotate_right w r shift) ≡ some value
rotate_right-rotate_left w value shift pos below fits =
    let k = w - shift in
    let a = value / 2 ^ k in
    let b = value % 2 ^ k in
    let e : shift + k ≡ w = omega arith in
    let e' : k + shift ≡ w = omega arith in
    let there : value ≡ a * 2 ^ k + b = omega (arith, mod-add-div' value (2 ^ k)) in
    let hb = mod-lt value {m = 2 ^ k} (one-le-pow k 2 (omega arith)) in
    let ha : a < 2 ^ shift = high w shift k value e fits in
    let turned : bit_or (value * 2 ^ shift % 2 ^ w) (value / 2 ^ k) ≡ b * 2 ^ shift + a =
      ap (λ (t : ℕ). bit_or (t * 2 ^ shift % 2 ^ w) (t / 2 ^ k)) there
      ∙ swapped w shift k a b e ha hb in
    let back = swapped_right w k shift b a e' hb ha in
    ground (arith, pos, below, turned, back, there)

-- Rotating to the left and then to the right by the same number of bits, at least one and fewer
-- than the word has, gives the word back, on 32 and on 64 bits.
pub bit_rotate_right-bit_rotate_left :
    (value shift value' shift' : ℕ)
    → 0 < shift
    → shift < 32
    → value < 2 ^ 32
    → 0 < shift'
    → shift' < 64
    → value' < 2 ^ 64
    → ((bit_rotate_left32 value shift >>= λ r. bit_rotate_right32 r shift) ≡ some value)
      × ((bit_rotate_left64 value' shift' >>= λ r. bit_rotate_right64 r shift') ≡ some value')
unfolding bit_rotate_left32 bit_rotate_right32 bit_rotate_left64 bit_rotate_right64
bit_rotate_right-bit_rotate_left value shift value' shift' p b f p' b' f' = (
  rotate_right-rotate_left 32 value shift p b f,
  rotate_right-rotate_left 64 value' shift' p' b' f',
)
