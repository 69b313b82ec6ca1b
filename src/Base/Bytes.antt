-- ===== src/Base/Bytes.antt =====
-- Words as lists of bytes, the least significant first.
use Prim.Native.Nat.{ℕ, zero, suc, ◌+◌, ◌*◌, ◌/◌, ◌%◌, ◌^◌, ◌<◌}
use mathlib.Core.Path.{◌≡◌, refl, ap}
use mathlib.Core.List.{List, [], ◌∷◌}
use native.Mathlib.Nat.{pow-suc}
use native.Mathlib.Omega.{arith}
use hologine.Base.Lists.{length}

abbrev pub word : List ℕ → ℕ
word [] = 0
word (b ∷ bs) = b + word bs * 2 ^ 8

-- The `n` lowest bytes.
abbrev pub bytes : ℕ → ℕ → List ℕ
bytes zero v = []
bytes (suc n) v = v % 2 ^ 8 ∷ bytes n (v / 2 ^ 8)

pub length-bytes : (n v : ℕ) → length (bytes n v) ≡ n
length-bytes zero v = refl
length-bytes (suc n) v = ap suc (length-bytes n (v / 2 ^ 8))

pub word-bytes : (n v : ℕ) → v < 256 ^ n → word (bytes n v) ≡ v
word-bytes zero v h = omega arith
word-bytes (suc n) v h = omega (arith, word-bytes n (v / 2 ^ 8) (omega (arith, pow-suc 256 n)))

abbrev pub IsBytes : List ℕ → Type 0
IsBytes [] = Unit
IsBytes (b ∷ bs) = (b < 2 ^ 8) × IsBytes bs

pub word-lt : (bs : List ℕ) → IsBytes bs → word bs < 256 ^ length bs
word-lt [] h = omega arith
word-lt (b ∷ bs) (h, hs) = omega (arith, word-lt bs hs, pow-suc 256 (length bs))

pub bytes-word : (bs : List ℕ) → IsBytes bs → bytes (length bs) (word bs) ≡ bs
bytes-word [] h = refl
bytes-word (b ∷ bs) (h, hs) =
    let low : (b + word bs * 2 ^ 8) % 2 ^ 8 ≡ b = omega arith in
    let high : (b + word bs * 2 ^ 8) / 2 ^ 8 ≡ word bs = omega arith in
    rw (low, high, bytes-word bs hs)
