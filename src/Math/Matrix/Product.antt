-- ===== src/Math/Matrix/Product.antt =====
-- Products of matrices, transposes, and the vectors that a matrix transforms.
use mathlib.Core.Path.{fun_ext}
use hologine.Base.{◌≡◌, ap, sym}
use hologine.Math.Scalar.{Scalar, ◌⊕◌}
use hologine.Math.Scalar.Laws.{IsSymmetric}
use hologine.Math.Matrix.{Matrix, matrix, multiply, multiply_assign, transpose}
use hologine.Math.Matrix.Transforms.{rotate}
use hologine.Math.Vector2.{Vector2}
use hologine.Math.Vector2 as Vector2
use hologine.Math.Vector3.{Vector3}
use hologine.Math.Vector3 as Vector3
use hologine.Math.Vector4.{Vector4, transform}
use hologine.Math.Vector4 as Vector4

module _ {ℓ} {A : Type ℓ} ⦃s : Scalar A⦄ where
  -- The matrix with four vectors as its columns.
  abbrev pub columns : Vector4 A → Vector4 A → Vector4 A → Vector4 A → Matrix A
  columns a b c d = matrix a.x b.x c.x d.x a.y b.y c.y d.y a.z b.z c.z d.z a.w b.w c.w d.w

  -- The scalars with another multiplication.
  abbrev with_mul : (A → A → A) → Scalar A
  with_mul m = record s { mul = m }

  mul_flip : IsSymmetric s → (λ a b. s.mul b a) ≡ s.mul
  mul_flip h = fun_ext λ a. fun_ext λ b. h.mul_comm b a

  -- Where multiplication commutes, the transpose of a product is the product of the transposes in the
  -- other order.
  pub transpose-multiply :
      IsSymmetric s
      → (a b : Matrix A) → transpose (multiply a b) ≡ multiply (transpose b) (transpose a)
  unfolding transpose multiply_assign
  transpose-multiply h a b =
      ap (λ m. multiply ⦃s = with_mul m⦄ (transpose b) (transpose a)) (mul_flip h)

  -- Where multiplication commutes, a matrix times another transforms each of its columns, so that
  -- `transform` reads a vector as a column.
  pub multiply-columns :
      IsSymmetric s
      → (m : Matrix A) (a b c d : Vector4 A)
      → multiply m (columns a b c d)
        ≡ columns (transform a m) (transform b m) (transform c m) (transform d m)
  unfolding multiply_assign transform
  multiply-columns h m a b c d =
      sym (ap (λ f. multiply ⦃s = with_mul f⦄ m (columns a b c d)) (mul_flip h))

  -- Where signs are symmetric, turning by the negated angle is the transpose of turning by the angle.
  pub rotate_negated :
      IsSymmetric s
      → (axis : Vector3 A) (angle : A) → rotate axis (s.neg angle) ≡ transpose (rotate axis angle)
  unfolding rotate transpose
  rotate_negated h axis angle = simp (h.sin-neg, h.cos-neg, h.neg-mul, h.add-neg, h.sub-neg)

  -- The distance of two vectors does not depend on their order, in two, three and four dimensions.
  pub distance_comm :
      IsSymmetric s
      → (a b : Vector2 A) (c d : Vector3 A) (e f : Vector4 A)
      → (Vector2.distance a b ≡ Vector2.distance b a)
        × (Vector3.distance c d ≡ Vector3.distance d c)
        × (Vector4.distance e f ≡ Vector4.distance f e)
  unfolding Vector2.distance Vector3.distance Vector4.distance
  distance_comm h a b c d e f =
      let q = h.square-sub in
      (
        λ i. s.sqrt (q a.x b.x i ⊕ q a.y b.y i),
        λ i. s.sqrt (q c.x d.x i ⊕ q c.y d.y i ⊕ q c.z d.z i),
        λ i. s.sqrt (q e.x f.x i ⊕ q e.y f.y i ⊕ q e.z f.z i ⊕ q e.w f.w i),
      )
