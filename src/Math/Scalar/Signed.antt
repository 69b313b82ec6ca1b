-- ===== src/Math/Scalar/Signed.antt =====
-- A scalar with a sign, as a `float` has one: whole numbers, whose angles are small.
use hologine.Base.{ℕ, ◌+◌, ◌-◌, ◌*◌, ◌/◌, ◌≡◌, refl, ap, arith, zero, suc, leb, if◌then◌else◌}
use native.Mathlib.Nat as Nat
use hologine.Math.Scalar.{Scalar}
use hologine.Math.Scalar.Laws.{IsSymmetric}

pub data Signed : Type 0 where
  positive : ℕ → Signed
  negative : ℕ → Signed

abbrev negated : Signed → Signed
negated (positive n) = negative n
negated (negative n) = positive n

-- The sum of two numbers of different signs.
abbrev difference : ℕ → ℕ → Signed
difference a b = if leb b a then positive (a - b) else negative (b - a)

abbrev plus : Signed → Signed → Signed
plus (positive a) (positive b) = positive (a + b)
plus (positive a) (negative b) = difference a b
plus (negative a) (positive b) = difference b a
plus (negative a) (negative b) = negative (a + b)

abbrev minus : Signed → Signed → Signed
minus a b = plus a (negated b)

-- A magnitude with the sign that two signs give a product or a quotient.
abbrev by_signs : (ℕ → ℕ → ℕ) → Signed → Signed → Signed
by_signs op (positive a) (positive b) = positive (op a b)
by_signs op (positive a) (negative b) = negative (op a b)
by_signs op (negative a) (positive b) = negative (op a b)
by_signs op (negative a) (negative b) = positive (op a b)

-- The largest number whose square is at most `n`, looked for among the numbers up to a bound.
abbrev root : ℕ → ℕ → ℕ
root n zero = 0
root n (suc k) = if leb (suc k * suc k) n then suc k else root n k

abbrev square_root : Signed → Signed
square_root (positive n) = positive (root n n)
square_root (negative n) = negative (root n n)

instance abbrev pub signed : Scalar Signed
signed = record {
  zero = positive 0;
  one = positive 1;
  two = positive 2;
  pi = positive 3;
  add = plus;
  sub = minus;
  mul = by_signs ◌*◌;
  div = by_signs ◌/◌;
  neg = negated;
  sqrt = square_root;
  sin = λ a. a;
  cos = λ a. positive 1;
  tan = λ a. a;
  one_minus = minus (positive 1);
}

signed-mul_comm : (a b : Signed) → by_signs ◌*◌ a b ≡ by_signs ◌*◌ b a
signed-mul_comm (positive a) (positive b) = ap positive (Nat.mul_comm a b)
signed-mul_comm (positive a) (negative b) = ap negative (Nat.mul_comm a b)
signed-mul_comm (negative a) (positive b) = ap negative (Nat.mul_comm a b)
signed-mul_comm (negative a) (negative b) = ap positive (Nat.mul_comm a b)

signed-neg-mul : (a b : Signed) → by_signs ◌*◌ (negated a) b ≡ negated (by_signs ◌*◌ a b)
signed-neg-mul (positive a) (positive b) = refl
signed-neg-mul (positive a) (negative b) = refl
signed-neg-mul (negative a) (positive b) = refl
signed-neg-mul (negative a) (negative b) = refl

negated_twice : (a : Signed) → negated (negated a) ≡ a
negated_twice (positive a) = refl
negated_twice (negative a) = refl

difference_squared :
    (a b : ℕ)
    → by_signs ◌*◌ (difference a b) (difference a b)
      ≡ by_signs ◌*◌ (difference b a) (difference b a)
difference_squared a b = ground arith

signed-square-sub :
    (a b : Signed) → by_signs ◌*◌ (minus a b) (minus a b) ≡ by_signs ◌*◌ (minus b a) (minus b a)
signed-square-sub (positive a) (positive b) = difference_squared a b
signed-square-sub (positive a) (negative b) =
    let e : a + b ≡ b + a = omega arith in ap (λ (t : ℕ). positive (t * t)) e
signed-square-sub (negative a) (positive b) =
    let e : a + b ≡ b + a = omega arith in ap (λ (t : ℕ). positive (t * t)) e
signed-square-sub (negative a) (negative b) = difference_squared b a

pub signed-IsSymmetric : IsSymmetric signed
signed-IsSymmetric = record {
  mul_comm = signed-mul_comm;
  neg-mul = signed-neg-mul;
  add-neg = λ a b. refl;
  sub-neg = λ a b. ap (plus a) (negated_twice b);
  square-sub = signed-square-sub;
  sin-neg = λ a. refl;
  cos-neg = λ a. refl;
}
