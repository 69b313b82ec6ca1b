-- ===== src/Base/Splice.antt =====
-- Lists written over a stretch of their elements.
use Prim.Native.Nat.{ℕ, zero, suc, ◌+◌, ◌≤◌, ◌<◌}
use mathlib.Core.Path.{◌≡◌, refl, ap}
use mathlib.Core.List.{List, [], ◌∷◌, ◌++◌}
use native.Mathlib.Omega.{arith}
use hologine.Base.Lists.{
  length, set, take, drop, length-append, length-take, length-drop, drop-append, take-append,
  take-append-drop,
}

module _ {ℓ} {A : Type ℓ} where
  -- The list with `ys` written over its elements from index `i` on.
  abbrev pub splice : List A → ℕ → List A → List A
  splice xs i ys = take i xs ++ (ys ++ drop (i + length ys) xs)

  pub splice-nil : (xs : List A) (i : ℕ) → splice xs i [] ≡ xs
  splice-nil xs i = let e : i + 0 ≡ i = omega arith in rw e (take-append-drop i xs)

  pub splice-set :
      (xs : List A) (i : ℕ) (y : A) (ys : List A)
      → i < length xs
      → splice (set xs i y) (i + 1) ys ≡ splice xs i (y ∷ ys)
  splice-set [] i y ys h = absurd (omega arith)
  splice-set (x ∷ xs) zero y ys h =
      let e : 0 + 1 + length ys ≡ suc (length ys) = omega arith in
      let f : 0 + suc (length ys) ≡ suc (length ys) = omega arith in rw (e, f)
  splice-set (x ∷ xs) (suc i) y ys h =
      let e : suc i + 1 ≡ suc (i + 1) = omega arith in
      let f : suc (i + 1) + length ys ≡ suc (i + 1 + length ys) = omega arith in
      let g : suc i + suc (length ys) ≡ suc (i + suc (length ys)) = omega arith in
      rw (e, f, g) (ap (λ t. x ∷ t) (splice-set xs i y ys (omega arith)))

  pub length-splice :
      (xs : List A) (i : ℕ) (ys : List A)
      → i + length ys ≤ length xs
      → length (splice xs i ys) ≡ length xs
  length-splice xs i ys h = omega (
    arith,
    length-append (take i xs) (ys ++ drop (i + length ys) xs),
    length-append ys (drop (i + length ys) xs),
    length-take i xs,
    length-drop (i + length ys) xs,
  )

  -- What a splice wrote can be read back.
  pub take-drop-splice :
      (xs : List A) (i : ℕ) (ys : List A)
      → i ≤ length xs
      → take (length ys) (drop i (splice xs i ys)) ≡ ys
  take-drop-splice xs i ys h =
      let here : i ≡ length (take i xs) = omega (arith, length-take i xs) in
      rw (drop-append (take i xs) (ys ++ drop (i + length ys) xs) i here)
        (take-append ys (drop (i + length ys) xs) (length ys) refl)
