-- ===== src/Math/Vector2.antt =====
-- hologine/core/math/vector2.cpp: vectors of two scalars.
use hologine.Math.Scalar.{Scalar, ◌⊕◌, ◌⊖◌, ◌⊗◌, ◌⊘◌}

pub record Vector2 {ℓ} (A : Type ℓ) : Type ℓ where
  pub x : A
  pub y : A

module _ {ℓ} {A : Type ℓ} ⦃s : Scalar A⦄ where
  open s use {zero, one, neg, sqrt}

  abbrev pub vector2_default : Vector2 A
  vector2_default = record { x = zero; y = zero }

  abbrev pub vector2 : A → A → Vector2 A
  vector2 x y = record { x = x; y = y }

  abbrev pub add_assign : Vector2 A → Vector2 A → Vector2 A
  add_assign v other = record { x = v.x ⊕ other.x; y = v.y ⊕ other.y }

  abbrev pub add_assign_scalar : Vector2 A → A → Vector2 A
  add_assign_scalar v other = record { x = v.x ⊕ other; y = v.y ⊕ other }

  abbrev pub subtract_assign : Vector2 A → Vector2 A → Vector2 A
  subtract_assign v other = record { x = v.x ⊖ other.x; y = v.y ⊖ other.y }

  abbrev pub subtract_assign_scalar : Vector2 A → A → Vector2 A
  subtract_assign_scalar v other = record { x = v.x ⊖ other; y = v.y ⊖ other }

  abbrev pub multiply_assign : Vector2 A → Vector2 A → Vector2 A
  multiply_assign v other = record { x = v.x ⊗ other.x; y = v.y ⊗ other.y }

  abbrev pub multiply_assign_scalar : Vector2 A → A → Vector2 A
  multiply_assign_scalar v other = record { x = v.x ⊗ other; y = v.y ⊗ other }

  abbrev pub divide_assign : Vector2 A → Vector2 A → Vector2 A
  divide_assign v other = record { x = v.x ⊘ other.x; y = v.y ⊘ other.y }

  abbrev pub divide_assign_scalar : Vector2 A → A → Vector2 A
  divide_assign_scalar v other = record { x = v.x ⊘ other; y = v.y ⊘ other }

  abbrev pub negate : Vector2 A → Vector2 A
  negate v = vector2 (neg v.x) (neg v.y)

  abbrev pub add : Vector2 A → Vector2 A → Vector2 A
  add left right = add_assign left right

  abbrev pub add_scalar : Vector2 A → A → Vector2 A
  add_scalar left right = add_assign_scalar left right

  abbrev pub scalar_add : A → Vector2 A → Vector2 A
  scalar_add left right = add_assign (vector2 left left) right

  abbrev pub subtract : Vector2 A → Vector2 A → Vector2 A
  subtract left right = subtract_assign left right

  abbrev pub subtract_scalar : Vector2 A → A → Vector2 A
  subtract_scalar left right = subtract_assign_scalar left right

  abbrev pub scalar_subtract : A → Vector2 A → Vector2 A
  scalar_subtract left right = subtract_assign (vector2 left left) right

  abbrev pub multiply : Vector2 A → Vector2 A → Vector2 A
  multiply left right = multiply_assign left right

  abbrev pub multiply_scalar : Vector2 A → A → Vector2 A
  multiply_scalar left right = multiply_assign_scalar left right

  abbrev pub scalar_multiply : A → Vector2 A → Vector2 A
  scalar_multiply left right = multiply_assign (vector2 left left) right

  abbrev pub divide : Vector2 A → Vector2 A → Vector2 A
  divide left right = divide_assign left right

  abbrev pub divide_scalar : Vector2 A → A → Vector2 A
  divide_scalar left right = divide_assign_scalar left right

  abbrev pub scalar_divide : A → Vector2 A → Vector2 A
  scalar_divide left right = divide_assign (vector2 left left) right

  abbrev pub calculate_length_squared : Vector2 A → A
  calculate_length_squared v = v.x ⊗ v.x ⊕ v.y ⊗ v.y

  abbrev pub calculate_length : Vector2 A → A
  calculate_length v = sqrt (calculate_length_squared v)

  abbrev pub normalize : Vector2 A → Vector2 A
  normalize vector = multiply_scalar vector (one ⊘ calculate_length vector)

  pub dot : Vector2 A → Vector2 A → A
  dot a b = a.x ⊗ b.x ⊕ a.y ⊗ b.y

  unfoldable pub distance : Vector2 A → Vector2 A → A
  distance from to = calculate_length (subtract from to)
