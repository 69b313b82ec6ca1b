-- ===== src/Math/Scalar.antt =====
-- The `float` of hologine/core/math: its operations are parameters, since they round.
pub mod Laws
pub mod Signed

pub record Scalar {ℓ} (A : Type ℓ) : Type ℓ where
  pub zero : A
  pub one : A
  pub two : A
  pub pi : A
  pub add : A → A → A
  pub sub : A → A → A
  pub mul : A → A → A
  pub div : A → A → A
  pub neg : A → A
  pub sqrt : A → A
  pub sin : A → A
  pub cos : A → A
  pub tan : A → A
  -- `1.0 - c`, computed as a `double` and converted.
  pub one_minus : A → A

module _ {ℓ} {A : Type ℓ} ⦃s : Scalar A⦄ where
  infixl 65 ◌⊕◌ ◌⊖◌
  infixl 70 ◌⊗◌ ◌⊘◌
  abbrev pub ◌⊕◌ : A → A → A
  a ⊕ b = s.add a b

  abbrev pub ◌⊖◌ : A → A → A
  a ⊖ b = s.sub a b

  abbrev pub ◌⊗◌ : A → A → A
  a ⊗ b = s.mul a b

  abbrev pub ◌⊘◌ : A → A → A
  a ⊘ b = s.div a b
