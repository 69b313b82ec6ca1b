-- ===== src/Math/Matrix/Transforms.antt =====
-- hologine/core/math/matrix.cpp: the matrices of transformations and projections.
use hologine.Math.Scalar.{Scalar, ◌⊕◌, ◌⊖◌, ◌⊗◌, ◌⊘◌}
use hologine.Math.Matrix.{Matrix, matrix, multiply}
use hologine.Math.Vector3.{Vector3, subtract, negate, normalize, cross}

module _ {ℓ} {A : Type ℓ} ⦃s : Scalar A⦄ where
  open s use {zero, one, two, pi, neg, sin, cos, tan, one_minus}

  unfoldable pub rotate : Vector3 A → A → Matrix A
  rotate axis angle =
      let c = cos (neg angle) in
      let s = sin (neg angle) in
      let t = one_minus c in
      matrix (t ⊗ axis.x ⊗ axis.x ⊕ c) (t ⊗ axis.x ⊗ axis.y ⊖ s ⊗ axis.z)
        (t ⊗ axis.x ⊗ axis.z ⊕ s ⊗ axis.y) zero (t ⊗ axis.x ⊗ axis.y ⊕ s ⊗ axis.z)
        (t ⊗ axis.y ⊗ axis.y ⊕ c) (t ⊗ axis.y ⊗ axis.z ⊖ s ⊗ axis.x) zero
        (t ⊗ axis.x ⊗ axis.z ⊖ s ⊗ axis.y) (t ⊗ axis.y ⊗ axis.z ⊕ s ⊗ axis.x)
        (t ⊗ axis.z ⊗ axis.z ⊕ c) zero zero zero zero one

  abbrev pub translate : Vector3 A → Matrix A
  translate translation =
      matrix one zero zero translation.x zero one zero translation.y zero zero one translation.z
        zero zero zero one

  abbrev pub scale : Vector3 A → Matrix A
  scale amount =
      matrix amount.x zero zero zero zero amount.y zero zero zero zero amount.z zero zero zero zero
        one

  abbrev pub ortho : A → A → A → A → A → A → Matrix A
  ortho left right bottom top near far =
      let right_left = one ⊘ (right ⊖ left) in
      let top_bottom = one ⊘ (top ⊖ bottom) in
      let far_near = one ⊘ (far ⊖ near) in
      matrix (two ⊗ right_left) zero zero (neg (right ⊕ left) ⊗ right_left) zero (two ⊗ top_bottom)
        zero (neg (top ⊕ bottom) ⊗ top_bottom) zero zero (neg far_near) (neg far ⊗ far_near) zero
        zero zero one

  abbrev pub perspective : A → A → A → A → Matrix A
  perspective fov aspect near far =
      let f = tan (pi ⊘ two ⊖ fov ⊘ two) in
      let a = f ⊘ aspect in
      let b = (far ⊕ near) ⊘ (near ⊖ far) in
      let c = two ⊗ far ⊗ near ⊘ (near ⊖ far) in
      matrix a zero zero zero zero f zero zero zero zero b c zero zero (neg one) zero

  abbrev pub frustum : A → A → A → A → A → A → Matrix A
  frustum left right bottom top near far =
      let x = two ⊗ near ⊘ (right ⊖ left) in
      let y = two ⊗ near ⊘ (top ⊖ bottom) in
      let a = (right ⊕ left) ⊘ (right ⊖ left) in
      let b = (top ⊕ bottom) ⊘ (top ⊖ bottom) in
      let c = neg near ⊘ (far ⊖ near) in
      let d = neg (near ⊗ far) ⊘ (far ⊖ near) in
      matrix x zero a zero zero y b zero zero zero c d zero zero (neg one) zero

  abbrev pub look_at : Vector3 A → Vector3 A → Vector3 A → Matrix A
  look_at eye target up =
      let f = normalize (subtract target eye) in
      let s = normalize (cross f up) in
      let u = normalize (cross s f) in
      let m =
        matrix s.x s.y s.z zero u.x u.y u.z zero (neg f.x) (neg f.y) (neg f.z) zero zero zero zero
          one in
      multiply m (translate (negate eye))
