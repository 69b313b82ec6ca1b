-- ===== src/Base/Bits.antt =====
-- The bit operations as arithmetic: masks are remainders, shifted masks are fields, and `|` of
-- words with no bit in common is a sum.
use Prim.Native.Nat.{
  ℕ, zero, suc, ◌+◌, ◌-◌, ◌*◌, ◌/◌, ◌%◌, ◌^◌, ◌≤◌, ◌<◌, min, max, bit_and, bit_or, digits,
  bit_and-bitwise, bit_or-bitwise,
}
use mathlib.Core.Path.{◌≡◌, refl, ap}
use native.Mathlib.Nat.{
  add_comm, add-mul-div_right, div-eq_of_lt, add-zero, pow-suc, one-le-pow, mul_assoc,
  mul-le-mul_right, mod-eq_of_lt, pow-le-pow_right,
}
use native.Mathlib.Numerals.{unary_clauses}
use native.Mathlib.Omega.{arith}

module _ (z : ℕ → ℕ) (f : ℕ → ℕ → ℕ) where
  -- Fuel beyond the first number changes nothing.
  enough : (n m a b : ℕ) → a ≤ n → a ≤ m → digits z f n a b ≡ digits z f m a b
  enough zero zero a b p q = refl
  enough zero (suc m) zero b p q = refl
  enough zero (suc m) (suc a) b p q = absurd (omega arith)
  enough (suc n) zero zero b p q = refl
  enough (suc n) zero (suc a) b p q = absurd (omega arith)
  enough (suc n) (suc m) zero b p q = refl
  enough (suc n) (suc m) (suc a) b p q =
      ap (λ (t : ℕ). t * 2 + f (suc a % 2) (b % 2))
        (enough n m (suc a / 2) (b / 2) (omega arith) (omega arith))

pub or_low : (a b : ℕ) → bit_or a b ≡ bit_or (a / 2) (b / 2) * 2 + max (a % 2) (b % 2)
or_low zero b = omega (arith, bit_or-bitwise 0 b, bit_or-bitwise 0 (b / 2))
or_low (suc a) b = omega (
  arith,
  bit_or-bitwise (suc a) b,
  bit_or-bitwise (suc a / 2) (b / 2),
  enough (λ y. y) max a (suc a / 2) (suc a / 2) (b / 2) (omega arith) (omega arith),
)

pub and_low : (a b : ℕ) → bit_and a b ≡ bit_and (a / 2) (b / 2) * 2 + min (a % 2) (b % 2)
and_low zero b = omega (arith, bit_and-bitwise 0 b, bit_and-bitwise 0 (b / 2))
and_low (suc a) b = omega (
  arith,
  bit_and-bitwise (suc a) b,
  bit_and-bitwise (suc a / 2) (b / 2),
  enough (λ y. 0) min a (suc a / 2) (suc a / 2) (b / 2) (omega arith) (omega arith),
)

or_zero_below : (n a : ℕ) → a ≤ n → bit_or a 0 ≡ a
or_zero_below n zero h = refl
or_zero_below zero (suc a) h = absurd (omega arith)
or_zero_below (suc n) (suc a) h =
    omega (arith, or_low (suc a) 0, or_zero_below n (suc a / 2) (omega arith))

pub bit_or-zero : (a : ℕ) → bit_or a 0 ≡ a
bit_or-zero a = or_zero_below a a (omega arith)

and_zero_below : (n a : ℕ) → a ≤ n → bit_and a 0 ≡ 0
and_zero_below n zero h = refl
and_zero_below zero (suc a) h = absurd (omega arith)
and_zero_below (suc n) (suc a) h =
    omega (arith, and_low (suc a) 0, and_zero_below n (suc a / 2) (omega arith))

pub bit_and-zero : (a : ℕ) → bit_and a 0 ≡ 0
bit_and-zero a = and_zero_below a a (omega arith)

or_comm_below : (n a b : ℕ) → a ≤ n → bit_or a b ≡ bit_or b a
or_comm_below n zero b h = omega (arith, bit_or-bitwise 0 b, bit_or-zero b)
or_comm_below zero (suc a) b h = absurd (omega arith)
or_comm_below (suc n) (suc a) b h =
    omega
      (arith, or_low (suc a) b, or_low b (suc a), or_comm_below n (suc a / 2) (b / 2) (omega arith))

pub bit_or_comm : (a b : ℕ) → bit_or a b ≡ bit_or b a
bit_or_comm a b = or_comm_below a a b (omega arith)

pub two_pow : (q k : ℕ) → q * 2 ^ suc k ≡ q * 2 ^ k * 2
two_pow q k = omega (arith, ap (λ (t : ℕ). q * t) (pow-suc 2 k))

-- `(q << k) | r` is a sum when `r` fits in `k` bits.
pub or_fields : (k q r : ℕ) → r < 2 ^ k → bit_or (q * 2 ^ k) r ≡ q * 2 ^ k + r
or_fields zero q r h = ground (arith, bit_or-zero q)
or_fields (suc k) q r h = ground (
  arith,
  or_low (q * 2 ^ suc k) r,
  two_pow q k,
  pow-suc 2 k,
  or_fields k q (r / 2) (omega (arith, pow-suc 2 k)),
)

-- `r | (q << k)`
pub or_fields_comm : (k q r : ℕ) → r < 2 ^ k → bit_or r (q * 2 ^ k) ≡ q * 2 ^ k + r
or_fields_comm k q r h = omega (arith, bit_or_comm r (q * 2 ^ k), or_fields k q r h)

and_ones : (k q r : ℕ) → r < 2 ^ k → bit_and (q * 2 ^ k + r) (2 ^ k - 1) ≡ r
and_ones zero q r h = ground (arith, bit_and-zero (q + r))
and_ones (suc k) q r h = ground (
  arith,
  and_low (q * 2 ^ suc k + r) (2 ^ suc k - 1),
  two_pow q k,
  pow-suc 2 k,
  and_ones k q (r / 2) (omega (arith, pow-suc 2 k)),
)

-- A mask of `k` ones is the remainder by `2 ^ k`.
pub and_mask : (k a : ℕ) → bit_and a (2 ^ k - 1) ≡ a % 2 ^ k
and_mask k a = ground (arith, one-le-pow k 2, and_ones k (a / 2 ^ k) (a % 2 ^ k))

-- A mask that is shifted by `k` acts on the number shifted down by `k`.
pub and_shifted :
    (k q r m : ℕ) → r < 2 ^ k → bit_and (q * 2 ^ k + r) (m * 2 ^ k) ≡ bit_and q m * 2 ^ k
and_shifted zero q r m h = ground arith
and_shifted (suc k) q r m h = ground (
  arith,
  and_low (q * 2 ^ suc k + r) (m * 2 ^ suc k),
  two_pow q k,
  two_pow m k,
  two_pow (bit_and q m) k,
  pow-suc 2 k,
  and_shifted k q (r / 2) m (omega (arith, pow-suc 2 k)),
)

-- The field of `j` bits from bit `k` on, left where it stands.
pub and_field : (k j a : ℕ) → bit_and a ((2 ^ j - 1) * 2 ^ k) ≡ a / 2 ^ k % 2 ^ j * 2 ^ k
and_field k j a = ground (
  arith,
  one-le-pow k 2,
  and_shifted k (a / 2 ^ k) (a % 2 ^ k) (2 ^ j - 1),
  and_mask j (a / 2 ^ k),
)

-- `|` with a word that is shifted by `k` leaves the `k` lowest bits.
pub or_shifted :
    (k q r m : ℕ) → r < 2 ^ k → bit_or (q * 2 ^ k + r) (m * 2 ^ k) ≡ bit_or q m * 2 ^ k + r
or_shifted zero q r m h = ground arith
or_shifted (suc k) q r m h = ground (
  arith,
  or_low (q * 2 ^ suc k + r) (m * 2 ^ suc k),
  two_pow q k,
  two_pow m k,
  two_pow (bit_or q m) k,
  pow-suc 2 k,
  or_shifted k q (r / 2) m (omega (arith, pow-suc 2 k)),
)

-- So it puts a field of `j` bits between `q` above it and the `k` bits of `r` below it.
pub or_between :
    (j k q m r : ℕ)
    → m < 2 ^ j
    → r < 2 ^ k
    → bit_or (q * 2 ^ j * 2 ^ k + r) (m * 2 ^ k) ≡ (q * 2 ^ j + m) * 2 ^ k + r
or_between j k q m r hm hr = ground (arith, or_shifted k (q * 2 ^ j) r m hr, or_fields j q m hm)

pub or_above :
    (j k q m : ℕ) → m < 2 ^ j → bit_or (q * 2 ^ j * 2 ^ k) (m * 2 ^ k) ≡ (q * 2 ^ j + m) * 2 ^ k
or_above j k q m h = simp add-zero at (or_between j k q m 0 h (one-le-pow k 2 (omega arith)))

pub pow_add : (j k : ℕ) → 2 ^ (j + k) ≡ 2 ^ j * 2 ^ k
pow_add j zero = simp unary_clauses (omega arith)
pow_add j (suc k) = simp unary_clauses (rw (pow_add j k) (mul_assoc (2 ^ j) (2 ^ k) 2))

-- A number of two digits is below the product of the bases.
pub mul_add_lt : (m n a b : ℕ) → a < m → b < n → a * n + b < m * n
mul_add_lt m n a b h l = omega (arith, mul-le-mul_right {m = suc a} {n = m} n h)

-- A shift to the left loses nothing when the result fits in the word.
pub shift_fits : (n k x : ℕ) → x < 2 ^ n → n + k ≤ 64 → x * 2 ^ k % 2 ^ 64 ≡ x * 2 ^ k
shift_fits n k x h l = mod-eq_of_lt (
    omega (
      arith,
      mul_add_lt (2 ^ n) (2 ^ k) x 0 h (one-le-pow k 2 (omega arith)),
      pow_add n k,
      pow-le-pow_right {n = 2} (omega arith) l,
    ))

pub quotient : (m q r : ℕ) → r < m → (q * m + r) / m ≡ q
quotient m q r h = omega (
  arith,
  ap (λ (t : ℕ). t / m) (add_comm (q * m) r),
  add-mul-div_right r q {z = m} (omega arith),
  div-eq_of_lt h,
)
