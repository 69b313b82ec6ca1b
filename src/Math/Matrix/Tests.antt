-- ===== src/Math/Matrix/Tests.antt =====
-- Runs of hologine/core/math/matrix.cpp and of its vectors, on whole numbers.
use hologine.Base.{◌≡◌, refl, some}
use hologine.Math.Scalar.Signed.{Signed, positive, negative, signed, signed-IsSymmetric}
use hologine.Math.Matrix.{Matrix, matrix, multiply, matrix_from_array, get_pointer}
use hologine.Math.Matrix.Inverse.{invert, calculate_determinant}
use hologine.Math.Matrix.Product.{multiply-columns, columns}
use hologine.Math.Vector2 as Vector2
use hologine.Math.Vector2.{Vector2, vector2}
use hologine.Math.Vector4.{Vector4, vector4, transform}

abbrev n : Signed
n = positive 0

abbrev a : Matrix Signed
a =
    matrix (positive 1) (positive 2) n n n (negative 1) n n n n (positive 1) (positive 3) n n n
      (positive 1)

abbrev b : Matrix Signed
b =
    matrix (positive 2) n n n (positive 5) (positive 1) n n n n (positive 4) n (negative 7) n n
      (positive 1)

abbrev u : Vector4 Signed
u = vector4 (positive 1) (negative 2) (positive 3) (positive 4)

determinant_runs : calculate_determinant b ≡ positive 8
determinant_runs = refl

invert_runs : ((invert a).m12 ≡ positive 2) × ((invert a).m34 ≡ negative 3)
unfolding invert
invert_runs = (refl, refl)

multiply-columns_example :
    multiply a (columns u u u u)
    ≡ columns (transform u a) (transform u a) (transform u a) (transform u a)
multiply-columns_example = multiply-columns signed-IsSymmetric a u u u u

abbrev p : Vector2 Signed
p = vector2 (positive 3) (negative 1)

abbrev q : Vector2 Signed
q = vector2 (negative 1) (positive 2)

distance_runs : Vector2.distance p q ≡ positive 5
unfolding Vector2.distance
distance_runs = refl

array_runs : matrix_from_array (get_pointer a) ≡ some a
unfolding matrix_from_array get_pointer
array_runs = refl
