-- ===== src/Math.antt =====
-- hologine/core/math.
pub mod Bits
pub mod Util
pub mod Scalar
pub mod Vector2
pub mod Vector3
pub mod Vector4
pub mod Matrix
