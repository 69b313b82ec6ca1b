-- ===== src/Math/Scalar/Laws.antt =====
-- What IEEE 754 arithmetic, which rounds alike on both sides of zero, promises of signs and order.
use hologine.Base.{◌≡◌}
use hologine.Math.Scalar.{Scalar}

pub record IsSymmetric {ℓ} {A : Type ℓ} (s : Scalar A) : Type ℓ where
  pub mul_comm : (a b : A) → s.mul a b ≡ s.mul b a
  pub neg-mul : (a b : A) → s.mul (s.neg a) b ≡ s.neg (s.mul a b)
  pub add-neg : (a b : A) → s.add a (s.neg b) ≡ s.sub a b
  pub sub-neg : (a b : A) → s.sub a (s.neg b) ≡ s.add a b
  -- `a - b` and `b - a` differ by their sign, which a square does not show.
  pub square-sub : (a b : A) → s.mul (s.sub a b) (s.sub a b) ≡ s.mul (s.sub b a) (s.sub b a)
  pub sin-neg : (a : A) → s.sin (s.neg a) ≡ s.neg (s.sin a)
  pub cos-neg : (a : A) → s.cos (s.neg a) ≡ s.cos a
