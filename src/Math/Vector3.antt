-- ===== src/Math/Vector3.antt =====
-- hologine/core/math/vector3.cpp: vectors of three scalars.
use hologine.Math.Scalar.{Scalar, ◌⊕◌, ◌⊖◌, ◌⊗◌, ◌⊘◌}
use hologine.Math.Matrix.{Matrix}

pub record Vector3 {ℓ} (A : Type ℓ) : Type ℓ where
  pub x : A
  pub y : A
  pub z : A

module _ {ℓ} {A : Type ℓ} ⦃s : Scalar A⦄ where
  open s use {zero, one, neg, sqrt}

  abbrev pub vector3_default : Vector3 A
  vector3_default = record { x = zero; y = zero; z = zero }

  abbrev pub vector3 : A → A → A → Vector3 A
  vector3 x y z = record { x = x; y = y; z = z }

  abbrev pub add_assign : Vector3 A → Vector3 A → Vector3 A
  add_assign v other = record { x = v.x ⊕ other.x; y = v.y ⊕ other.y; z = v.z ⊕ other.z }

  abbrev pub add_assign_scalar : Vector3 A → A → Vector3 A
  add_assign_scalar v other = record { x = v.x ⊕ other; y = v.y ⊕ other; z = v.z ⊕ other }

  abbrev pub subtract_assign : Vector3 A → Vector3 A → Vector3 A
  subtract_assign v other = record { x = v.x ⊖ other.x; y = v.y ⊖ other.y; z = v.z ⊖ other.z }

  abbrev pub subtract_assign_scalar : Vector3 A → A → Vector3 A
  subtract_assign_scalar v other = record { x = v.x ⊖ other; y = v.y ⊖ other; z = v.z ⊖ other }

  abbrev pub multiply_assign : Vector3 A → Vector3 A → Vector3 A
  multiply_assign v other = record { x = v.x ⊗ other.x; y = v.y ⊗ other.y; z = v.z ⊗ other.z }

  abbrev pub multiply_assign_scalar : Vector3 A → A → Vector3 A
  multiply_assign_scalar v other = record { x = v.x ⊗ other; y = v.y ⊗ other; z = v.z ⊗ other }

  abbrev pub divide_assign : Vector3 A → Vector3 A → Vector3 A
  divide_assign v other = record { x = v.x ⊘ other.x; y = v.y ⊘ other.y; z = v.z ⊘ other.z }

  abbrev pub divide_assign_scalar : Vector3 A → A → Vector3 A
  divide_assign_scalar v other = record { x = v.x ⊘ other; y = v.y ⊘ other; z = v.z ⊘ other }

  abbrev pub negate : Vector3 A → Vector3 A
  negate v = vector3 (neg v.x) (neg v.y) (neg v.z)

  abbrev pub add : Vector3 A → Vector3 A → Vector3 A
  add left right = add_assign left right

  abbrev pub add_scalar : Vector3 A → A → Vector3 A
  add_scalar left right = add_assign_scalar left right

  abbrev pub scalar_add : A → Vector3 A → Vector3 A
  scalar_add left right = add_assign (vector3 left left left) right

  abbrev pub subtract : Vector3 A → Vector3 A → Vector3 A
  subtract left right = subtract_assign left right

  abbrev pub subtract_scalar : Vector3 A → A → Vector3 A
  subtract_scalar left right = subtract_assign_scalar left right

  abbrev pub scalar_subtract : A → Vector3 A → Vector3 A
  scalar_subtract left right = subtract_assign (vector3 left left left) right

  abbrev pub multiply : Vector3 A → Vector3 A → Vector3 A
  multiply left right = multiply_assign left right

  abbrev pub multiply_scalar : Vector3 A → A → Vector3 A
  multiply_scalar left right = multiply_assign_scalar left right

  abbrev pub scalar_multiply : A → Vector3 A → Vector3 A
  scalar_multiply left right = multiply_assign (vector3 left left left) right

  abbrev pub divide : Vector3 A → Vector3 A → Vector3 A
  divide left right = divide_assign left right

  abbrev pub divide_scalar : Vector3 A → A → Vector3 A
  divide_scalar left right = divide_assign_scalar left right

  abbrev pub scalar_divide : A → Vector3 A → Vector3 A
  scalar_divide left right = divide_assign (vector3 left left left) right

  abbrev pub calculate_length_squared : Vector3 A → A
  calculate_length_squared v = v.x ⊗ v.x ⊕ v.y ⊗ v.y ⊕ v.z ⊗ v.z

  abbrev pub calculate_length : Vector3 A → A
  calculate_length v = sqrt (calculate_length_squared v)

  abbrev pub normalize : Vector3 A → Vector3 A
  normalize vector = multiply_scalar vector (one ⊘ calculate_length vector)

  abbrev pub cross : Vector3 A → Vector3 A → Vector3 A
  cross left right =
      vector3 (left.y ⊗ right.z ⊖ left.z ⊗ right.y) (left.z ⊗ right.x ⊖ left.x ⊗ right.z)
        (left.x ⊗ right.y ⊖ left.y ⊗ right.x)

  pub dot : Vector3 A → Vector3 A → A
  dot a b = a.x ⊗ b.x ⊕ a.y ⊗ b.y ⊕ a.z ⊗ b.z

  unfoldable pub distance : Vector3 A → Vector3 A → A
  distance from to = calculate_length (subtract from to)

  unfoldable pub transform : Vector3 A → Matrix A → Vector3 A
  transform vector matrix =
      vector3 (vector.x ⊗ matrix.m11 ⊕ vector.y ⊗ matrix.m12 ⊕ vector.z ⊗ matrix.m13 ⊕ matrix.m14)
        (vector.x ⊗ matrix.m21 ⊕ vector.y ⊗ matrix.m22 ⊕ vector.z ⊗ matrix.m23 ⊕ matrix.m24)
        (vector.x ⊗ matrix.m31 ⊕ vector.y ⊗ matrix.m32 ⊕ vector.z ⊗ matrix.m33 ⊕ matrix.m34)

  abbrev pub transform_normal : Vector3 A → Matrix A → Vector3 A
  transform_normal vector matrix =
      vector3 (vector.x ⊗ matrix.m11 ⊕ vector.y ⊗ matrix.m12 ⊕ vector.z ⊗ matrix.m13)
        (vector.x ⊗ matrix.m21 ⊕ vector.y ⊗ matrix.m22 ⊕ vector.z ⊗ matrix.m23)
        (vector.x ⊗ matrix.m31 ⊕ vector.y ⊗ matrix.m32 ⊕ vector.z ⊗ matrix.m33)
