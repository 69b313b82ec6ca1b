-- ===== src/Math/Matrix.antt =====
-- hologine/core/math/matrix.cpp: four by four matrices, row by row.
pub mod Inverse
pub mod Transforms
pub mod Product
mod Tests
use hologine.Base.{List, ◌∷◌, [], Option, none, some}
use hologine.Math.Scalar.{Scalar, ◌⊕◌, ◌⊗◌}

pub record Matrix {ℓ} (A : Type ℓ) : Type ℓ where
  pub m11 : A
  pub m12 : A
  pub m13 : A
  pub m14 : A
  pub m21 : A
  pub m22 : A
  pub m23 : A
  pub m24 : A
  pub m31 : A
  pub m32 : A
  pub m33 : A
  pub m34 : A
  pub m41 : A
  pub m42 : A
  pub m43 : A
  pub m44 : A

module _ {ℓ} {A : Type ℓ} where
  abbrev pub matrix : A → A → A → A → A → A → A → A → A → A → A → A → A → A → A → A → Matrix A
  matrix m11 m12 m13 m14 m21 m22 m23 m24 m31 m32 m33 m34 m41 m42 m43 m44 = record {
    m11 = m11;
    m12 = m12;
    m13 = m13;
    m14 = m14;
    m21 = m21;
    m22 = m22;
    m23 = m23;
    m24 = m24;
    m31 = m31;
    m32 = m32;
    m33 = m33;
    m34 = m34;
    m41 = m41;
    m42 = m42;
    m43 = m43;
    m44 = m44;
  }

  -- An array of sixteen scalars; `none` is a read behind its end.
  pub matrix_from_array : List A → Option (Matrix A)
  matrix_from_array
        (m11 ∷ m12 ∷ m13 ∷ m14 ∷ m21 ∷ m22 ∷ m23 ∷ m24 ∷ m31 ∷ m32 ∷ m33 ∷ m34 ∷ m41 ∷ m42 ∷ m43
          ∷ m44 ∷ rest) =
      some (matrix m11 m12 m13 m14 m21 m22 m23 m24 m31 m32 m33 m34 m41 m42 m43 m44)
  matrix_from_array _ = none

  -- What may be read at the pointer.
  pub get_pointer : Matrix A → List A
  get_pointer m =
      m.m11 ∷ m.m12 ∷ m.m13 ∷ m.m14 ∷ m.m21 ∷ m.m22 ∷ m.m23 ∷ m.m24 ∷ m.m31 ∷ m.m32 ∷ m.m33 ∷ m.m34
      ∷ m.m41 ∷ m.m42 ∷ m.m43 ∷ m.m44 ∷ []

  pub transpose : Matrix A → Matrix A
  transpose matrix = record {
    m11 = matrix.m11;
    m12 = matrix.m21;
    m13 = matrix.m31;
    m14 = matrix.m41;
    m21 = matrix.m12;
    m22 = matrix.m22;
    m23 = matrix.m32;
    m24 = matrix.m42;
    m31 = matrix.m13;
    m32 = matrix.m23;
    m33 = matrix.m33;
    m34 = matrix.m43;
    m41 = matrix.m14;
    m42 = matrix.m24;
    m43 = matrix.m34;
    m44 = matrix.m44;
  }

module _ {ℓ} {A : Type ℓ} ⦃s : Scalar A⦄ where
  open s use {zero, one}

  abbrev pub matrix_default : Matrix A
  matrix_default =
      matrix one zero zero zero zero one zero zero zero zero one zero zero zero zero one

  pub multiply_assign : Matrix A → Matrix A → Matrix A
  multiply_assign m other = record {
    m11 = m.m11 ⊗ other.m11 ⊕ m.m12 ⊗ other.m21 ⊕ m.m13 ⊗ other.m31 ⊕ m.m14 ⊗ other.m41;
    m12 = m.m11 ⊗ other.m12 ⊕ m.m12 ⊗ other.m22 ⊕ m.m13 ⊗ other.m32 ⊕ m.m14 ⊗ other.m42;
    m13 = m.m11 ⊗ other.m13 ⊕ m.m12 ⊗ other.m23 ⊕ m.m13 ⊗ other.m33 ⊕ m.m14 ⊗ other.m43;
    m14 = m.m11 ⊗ other.m14 ⊕ m.m12 ⊗ other.m24 ⊕ m.m13 ⊗ other.m34 ⊕ m.m14 ⊗ other.m44;
    m21 = m.m21 ⊗ other.m11 ⊕ m.m22 ⊗ other.m21 ⊕ m.m23 ⊗ other.m31 ⊕ m.m24 ⊗ other.m41;
    m22 = m.m21 ⊗ other.m12 ⊕ m.m22 ⊗ other.m22 ⊕ m.m23 ⊗ other.m32 ⊕ m.m24 ⊗ other.m42;
    m23 = m.m21 ⊗ other.m13 ⊕ m.m22 ⊗ other.m23 ⊕ m.m23 ⊗ other.m33 ⊕ m.m24 ⊗ other.m43;
    m24 = m.m21 ⊗ other.m14 ⊕ m.m22 ⊗ other.m24 ⊕ m.m23 ⊗ other.m34 ⊕ m.m24 ⊗ other.m44;
    m31 = m.m31 ⊗ other.m11 ⊕ m.m32 ⊗ other.m21 ⊕ m.m33 ⊗ other.m31 ⊕ m.m34 ⊗ other.m41;
    m32 = m.m31 ⊗ other.m12 ⊕ m.m32 ⊗ other.m22 ⊕ m.m33 ⊗ other.m32 ⊕ m.m34 ⊗ other.m42;
    m33 = m.m31 ⊗ other.m13 ⊕ m.m32 ⊗ other.m23 ⊕ m.m33 ⊗ other.m33 ⊕ m.m34 ⊗ other.m43;
    m34 = m.m31 ⊗ other.m14 ⊕ m.m32 ⊗ other.m24 ⊕ m.m33 ⊗ other.m34 ⊕ m.m34 ⊗ other.m44;
    m41 = m.m41 ⊗ other.m11 ⊕ m.m42 ⊗ other.m21 ⊕ m.m43 ⊗ other.m31 ⊕ m.m44 ⊗ other.m41;
    m42 = m.m41 ⊗ other.m12 ⊕ m.m42 ⊗ other.m22 ⊕ m.m43 ⊗ other.m32 ⊕ m.m44 ⊗ other.m42;
    m43 = m.m41 ⊗ other.m13 ⊕ m.m42 ⊗ other.m23 ⊕ m.m43 ⊗ other.m33 ⊕ m.m44 ⊗ other.m43;
    m44 = m.m41 ⊗ other.m14 ⊕ m.m42 ⊗ other.m24 ⊕ m.m43 ⊗ other.m34 ⊕ m.m44 ⊗ other.m44;
  }

  abbrev pub multiply : Matrix A → Matrix A → Matrix A
  multiply left right = multiply_assign left right
