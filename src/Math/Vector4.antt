-- ===== src/Math/Vector4.antt =====
-- hologine/core/math/vector4.cpp: vectors of four scalars.
use hologine.Math.Scalar.{Scalar, ◌⊕◌, ◌⊖◌, ◌⊗◌, ◌⊘◌}
use hologine.Math.Matrix.{Matrix}

pub record Vector4 {ℓ} (A : Type ℓ) : Type ℓ where
  pub x : A
  pub y : A
  pub z : A
  pub w : A

module _ {ℓ} {A : Type ℓ} ⦃s : Scalar A⦄ where
  open s use {zero, one, neg, sqrt}

  abbrev pub vector4_default : Vector4 A
  vector4_default = record { x = zero; y = zero; z = zero; w = zero }

  abbrev pub vector4 : A → A → A → A → Vector4 A
  vector4 x y z w = record { x = x; y = y; z = z; w = w }

  abbrev pub add_assign : Vector4 A → Vector4 A → Vector4 A
  add_assign v other = record {
    x = v.x ⊕ other.x;
    y = v.y ⊕ other.y;
    z = v.z ⊕ other.z;
    w = v.w ⊕ other.w;
  }

  abbrev pub add_assign_scalar : Vector4 A → A → Vector4 A
  add_assign_scalar v other = record {
    x = v.x ⊕ other;
    y = v.y ⊕ other;
    z = v.z ⊕ other;
    w = v.w ⊕ other;
  }

  abbrev pub subtract_assign : Vector4 A → Vector4 A → Vector4 A
  subtract_assign v other = record {
    x = v.x ⊖ other.x;
    y = v.y ⊖ other.y;
    z = v.z ⊖ other.z;
    w = v.w ⊖ other.w;
  }

  abbrev pub subtract_assign_scalar : Vector4 A → A → Vector4 A
  subtract_assign_scalar v other = record {
    x = v.x ⊖ other;
    y = v.y ⊖ other;
    z = v.z ⊖ other;
    w = v.w ⊖ other;
  }

  abbrev pub multiply_assign : Vector4 A → Vector4 A → Vector4 A
  multiply_assign v other = record {
    x = v.x ⊗ other.x;
    y = v.y ⊗ other.y;
    z = v.z ⊗ other.z;
    w = v.w ⊗ other.w;
  }

  abbrev pub multiply_assign_scalar : Vector4 A → A → Vector4 A
  multiply_assign_scalar v other = record {
    x = v.x ⊗ other;
    y = v.y ⊗ other;
    z = v.z ⊗ other;
    w = v.w ⊗ other;
  }

  abbrev pub divide_assign : Vector4 A → Vector4 A → Vector4 A
  divide_assign v other = record {
    x = v.x ⊘ other.x;
    y = v.y ⊘ other.y;
    z = v.z ⊘ other.z;
    w = v.w ⊘ other.w;
  }

  abbrev pub divide_assign_scalar : Vector4 A → A → Vector4 A
  divide_assign_scalar v other = record {
    x = v.x ⊘ other;
    y = v.y ⊘ other;
    z = v.z ⊘ other;
    w = v.w ⊘ other;
  }

  abbrev pub negate : Vector4 A → Vector4 A
  negate v = vector4 (neg v.x) (neg v.y) (neg v.z) (neg v.w)

  abbrev pub add : Vector4 A → Vector4 A → Vector4 A
  add left right = add_assign left right

  abbrev pub add_scalar : Vector4 A → A → Vector4 A
  add_scalar left right = add_assign_scalar left right

  abbrev pub scalar_add : A → Vector4 A → Vector4 A
  scalar_add left right = add_assign (vector4 left left left left) right

  abbrev pub subtract : Vector4 A → Vector4 A → Vector4 A
  subtract left right = subtract_assign left right

  abbrev pub subtract_scalar : Vector4 A → A → Vector4 A
  subtract_scalar left right = subtract_assign_scalar left right

  abbrev pub scalar_subtract : A → Vector4 A → Vector4 A
  scalar_subtract left right = subtract_assign (vector4 left left left left) right

  abbrev pub multiply : Vector4 A → Vector4 A → Vector4 A
  multiply left right = multiply_assign left right

  abbrev pub multiply_scalar : Vector4 A → A → Vector4 A
  multiply_scalar left right = multiply_assign_scalar left right

  abbrev pub scalar_multiply : A → Vector4 A → Vector4 A
  scalar_multiply left right = multiply_assign (vector4 left left left left) right

  abbrev pub divide : Vector4 A → Vector4 A → Vector4 A
  divide left right = divide_assign left right

  abbrev pub divide_scalar : Vector4 A → A → Vector4 A
  divide_scalar left right = divide_assign_scalar left right

  abbrev pub scalar_divide : A → Vector4 A → Vector4 A
  scalar_divide left right = divide_assign (vector4 left left left left) right

  abbrev pub calculate_length_squared : Vector4 A → A
  calculate_length_squared v = v.x ⊗ v.x ⊕ v.y ⊗ v.y ⊕ v.z ⊗ v.z ⊕ v.w ⊗ v.w

  abbrev pub calculate_length : Vector4 A → A
  calculate_length v = sqrt (calculate_length_squared v)

  abbrev pub normalize : Vector4 A → Vector4 A
  normalize vector = multiply_scalar vector (one ⊘ calculate_length vector)

  pub dot : Vector4 A → Vector4 A → A
  dot a b = a.x ⊗ b.x ⊕ a.y ⊗ b.y ⊕ a.z ⊗ b.z ⊕ a.w ⊗ b.w

  unfoldable pub distance : Vector4 A → Vector4 A → A
  distance from to = calculate_length (subtract from to)

  unfoldable pub transform : Vector4 A → Matrix A → Vector4 A
  transform vector matrix =
      vector4
        (vector.x ⊗ matrix.m11
          ⊕ vector.y ⊗ matrix.m12
          ⊕ vector.z ⊗ matrix.m13
          ⊕ vector.w ⊗ matrix.m14)
        (vector.x ⊗ matrix.m21
          ⊕ vector.y ⊗ matrix.m22
          ⊕ vector.z ⊗ matrix.m23
          ⊕ vector.w ⊗ matrix.m24)
        (vector.x ⊗ matrix.m31
          ⊕ vector.y ⊗ matrix.m32
          ⊕ vector.z ⊗ matrix.m33
          ⊕ vector.w ⊗ matrix.m34)
        (vector.x ⊗ matrix.m41
          ⊕ vector.y ⊗ matrix.m42
          ⊕ vector.z ⊗ matrix.m43
          ⊕ vector.w ⊗ matrix.m44)
