-- ===== src/Math/Matrix/Inverse.antt =====
-- hologine/core/math/matrix.cpp: the determinant and the inverse.
use hologine.Math.Scalar.{Scalar, ◌⊕◌, ◌⊖◌, ◌⊗◌, ◌⊘◌}
use hologine.Math.Matrix.{Matrix}

module _ {ℓ} {A : Type ℓ} ⦃s : Scalar A⦄ where
  open s use {one}

  abbrev pub calculate_determinant : Matrix A → A
  calculate_determinant m =
      let d1 = (m.m33 ⊗ m.m44) ⊖ (m.m34 ⊗ m.m43) in
      let d2 = (m.m32 ⊗ m.m44) ⊖ (m.m34 ⊗ m.m42) in
      let d3 = (m.m32 ⊗ m.m43) ⊖ (m.m33 ⊗ m.m42) in
      let d4 = (m.m31 ⊗ m.m44) ⊖ (m.m34 ⊗ m.m41) in
      let d5 = (m.m31 ⊗ m.m43) ⊖ (m.m33 ⊗ m.m41) in
      let d6 = (m.m31 ⊗ m.m42) ⊖ (m.m32 ⊗ m.m41) in
      ((((m.m11 ⊗ (((m.m22 ⊗ d1) ⊖ (m.m23 ⊗ d2)) ⊕ (m.m24 ⊗ d3)))
            ⊖ (m.m12 ⊗ (((m.m21 ⊗ d1) ⊖ (m.m23 ⊗ d4)) ⊕ (m.m24 ⊗ d5))))
          ⊕ (m.m13 ⊗ (((m.m21 ⊗ d2) ⊖ (m.m22 ⊗ d4)) ⊕ (m.m24 ⊗ d6))))
        ⊖ (m.m14 ⊗ (((m.m21 ⊗ d3) ⊖ (m.m22 ⊗ d5)) ⊕ (m.m23 ⊗ d6))))

  unfoldable pub invert : Matrix A → Matrix A
  invert m =
      let d = one ⊘ calculate_determinant m in
      record {
        m11 =
            (m.m22 ⊗ m.m33 ⊗ m.m44
              ⊕ m.m23 ⊗ m.m34 ⊗ m.m42
              ⊕ m.m24 ⊗ m.m32 ⊗ m.m43
              ⊖ m.m22 ⊗ m.m34 ⊗ m.m43
              ⊖ m.m23 ⊗ m.m32 ⊗ m.m44
              ⊖ m.m24 ⊗ m.m33 ⊗ m.m42)
            ⊗ d;
        m12 =
            (m.m12 ⊗ m.m34 ⊗ m.m43
              ⊕ m.m13 ⊗ m.m32 ⊗ m.m44
              ⊕ m.m14 ⊗ m.m33 ⊗ m.m42
              ⊖ m.m12 ⊗ m.m33 ⊗ m.m44
              ⊖ m.m13 ⊗ m.m34 ⊗ m.m42
              ⊖ m.m14 ⊗ m.m32 ⊗ m.m43)
            ⊗ d;
        m13 =
            (m.m12 ⊗ m.m23 ⊗ m.m44
              ⊕ m.m13 ⊗ m.m24 ⊗ m.m42
              ⊕ m.m14 ⊗ m.m22 ⊗ m.m43
              ⊖ m.m12 ⊗ m.m24 ⊗ m.m43
              ⊖ m.m13 ⊗ m.m22 ⊗ m.m44
              ⊖ m.m14 ⊗ m.m23 ⊗ m.m42)
            ⊗ d;
        m14 =
            (m.m12 ⊗ m.m24 ⊗ m.m33
              ⊕ m.m13 ⊗ m.m22 ⊗ m.m34
              ⊕ m.m14 ⊗ m.m23 ⊗ m.m32
              ⊖ m.m12 ⊗ m.m23 ⊗ m.m34
              ⊖ m.m13 ⊗ m.m24 ⊗ m.m32
              ⊖ m.m14 ⊗ m.m22 ⊗ m.m33)
            ⊗ d;
        m21 =
            (m.m21 ⊗ m.m34 ⊗ m.m43
              ⊕ m.m23 ⊗ m.m31 ⊗ m.m44
              ⊕ m.m24 ⊗ m.m33 ⊗ m.m41
              ⊖ m.m21 ⊗ m.m33 ⊗ m.m44
              ⊖ m.m23 ⊗ m.m34 ⊗ m.m41
              ⊖ m.m24 ⊗ m.m31 ⊗ m.m43)
            ⊗ d;
        m22 =
            (m.m11 ⊗ m.m33 ⊗ m.m44
              ⊕ m.m13 ⊗ m.m34 ⊗ m.m41
              ⊕ m.m14 ⊗ m.m31 ⊗ m.m43
              ⊖ m.m11 ⊗ m.m34 ⊗ m.m43
              ⊖ m.m13 ⊗ m.m31 ⊗ m.m44
              ⊖ m.m14 ⊗ m.m33 ⊗ m.m41)
            ⊗ d;
        m23 =
            (m.m11 ⊗ m.m24 ⊗ m.m43
              ⊕ m.m13 ⊗ m.m21 ⊗ m.m44
              ⊕ m.m14 ⊗ m.m23 ⊗ m.m41
              ⊖ m.m11 ⊗ m.m23 ⊗ m.m44
              ⊖ m.m13 ⊗ m.m24 ⊗ m.m41
              ⊖ m.m14 ⊗ m.m21 ⊗ m.m43)
            ⊗ d;
        m24 =
            (m.m11 ⊗ m.m23 ⊗ m.m34
              ⊕ m.m13 ⊗ m.m24 ⊗ m.m31
              ⊕ m.m14 ⊗ m.m21 ⊗ m.m33
              ⊖ m.m11 ⊗ m.m24 ⊗ m.m33
              ⊖ m.m13 ⊗ m.m21 ⊗ m.m34
              ⊖ m.m14 ⊗ m.m23 ⊗ m.m31)
            ⊗ d;
        m31 =
            (m.m21 ⊗ m.m32 ⊗ m.m44
              ⊕ m.m22 ⊗ m.m34 ⊗ m.m41
              ⊕ m.m24 ⊗ m.m31 ⊗ m.m42
              ⊖ m.m21 ⊗ m.m34 ⊗ m.m42
              ⊖ m.m22 ⊗ m.m31 ⊗ m.m44
              ⊖ m.m24 ⊗ m.m32 ⊗ m.m41)
            ⊗ d;
        m32 =
            (m.m11 ⊗ m.m34 ⊗ m.m42
              ⊕ m.m12 ⊗ m.m31 ⊗ m.m44
              ⊕ m.m14 ⊗ m.m32 ⊗ m.m41
              ⊖ m.m11 ⊗ m.m32 ⊗ m.m44
              ⊖ m.m12 ⊗ m.m34 ⊗ m.m41
              ⊖ m.m14 ⊗ m.m31 ⊗ m.m42)
            ⊗ d;
        m33 =
            (m.m11 ⊗ m.m22 ⊗ m.m44
              ⊕ m.m12 ⊗ m.m24 ⊗ m.m41
              ⊕ m.m14 ⊗ m.m21 ⊗ m.m42
              ⊖ m.m11 ⊗ m.m24 ⊗ m.m42
              ⊖ m.m12 ⊗ m.m21 ⊗ m.m44
              ⊖ m.m14 ⊗ m.m22 ⊗ m.m41)
            ⊗ d;
        m34 =
            (m.m11 ⊗ m.m24 ⊗ m.m32
              ⊕ m.m12 ⊗ m.m21 ⊗ m.m34
              ⊕ m.m14 ⊗ m.m22 ⊗ m.m31
              ⊖ m.m11 ⊗ m.m22 ⊗ m.m34
              ⊖ m.m12 ⊗ m.m24 ⊗ m.m31
              ⊖ m.m14 ⊗ m.m21 ⊗ m.m32)
            ⊗ d;
        m41 =
            (m.m21 ⊗ m.m33 ⊗ m.m42
              ⊕ m.m22 ⊗ m.m31 ⊗ m.m43
              ⊕ m.m23 ⊗ m.m32 ⊗ m.m41
              ⊖ m.m21 ⊗ m.m32 ⊗ m.m43
              ⊖ m.m22 ⊗ m.m33 ⊗ m.m41
              ⊖ m.m23 ⊗ m.m31 ⊗ m.m42)
            ⊗ d;
        m42 =
            (m.m11 ⊗ m.m32 ⊗ m.m43
              ⊕ m.m12 ⊗ m.m33 ⊗ m.m41
              ⊕ m.m13 ⊗ m.m31 ⊗ m.m42
              ⊖ m.m11 ⊗ m.m33 ⊗ m.m42
              ⊖ m.m12 ⊗ m.m31 ⊗ m.m43
              ⊖ m.m13 ⊗ m.m32 ⊗ m.m41)
            ⊗ d;
        m43 =
            (m.m11 ⊗ m.m23 ⊗ m.m42
              ⊕ m.m12 ⊗ m.m21 ⊗ m.m43
              ⊕ m.m13 ⊗ m.m22 ⊗ m.m41
              ⊖ m.m11 ⊗ m.m22 ⊗ m.m43
              ⊖ m.m12 ⊗ m.m23 ⊗ m.m41
              ⊖ m.m13 ⊗ m.m21 ⊗ m.m42)
            ⊗ d;
        m44 =
            (m.m11 ⊗ m.m22 ⊗ m.m33
              ⊕ m.m12 ⊗ m.m23 ⊗ m.m31
              ⊕ m.m13 ⊗ m.m21 ⊗ m.m32
              ⊖ m.m11 ⊗ m.m23 ⊗ m.m32
              ⊖ m.m12 ⊗ m.m21 ⊗ m.m33
              ⊖ m.m13 ⊗ m.m22 ⊗ m.m31)
            ⊗ d;
      }
