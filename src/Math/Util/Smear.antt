-- ===== src/Math/Util/Smear.antt =====
-- util.cpp: the loop-free search for the next power of two.
use native.Mathlib.Nat.{
  add_comm, div-le_self, one-le-pow, pow-suc, mod-lt, mod-add-div', div-div-eq-div-mul,
}
use native.Mathlib.Decide.{dec_le}
use hologine.Base.{
  ℕ, zero, suc, ◌+◌, ◌-◌, ◌*◌, ◌/◌, ◌%◌, ◌^◌, ◌≤◌, ◌<◌, ◌≡◌, refl, ap, ◌∙◌, sym, ◌⊎◌, inl, inr,
  bit_or, arith,
}
use hologine.Base.Bits.{or_low, two_pow, bit_or-zero, bit_or_comm, quotient, pow_add}
use hologine.Math.Util.{smear}

-- `|` goes into a shift to the right.
or_div : (i a b : ℕ) → bit_or a b / 2 ^ i ≡ bit_or (a / 2 ^ i) (b / 2 ^ i)
or_div zero a b =
    let one : (x : ℕ) → x / 2 ^ 0 ≡ x = λ x. (let e : 2 ^ 0 ≡ 1 = refl in rw e (omega arith)) in
    rw (one (bit_or a b), one a, one b) refl
or_div (suc i) a b =
    let half : bit_or a b / 2 ≡ bit_or (a / 2) (b / 2) = omega (arith, or_low a b) in
    let double : 2 ^ suc i ≡ 2 * 2 ^ i = omega (arith, pow-suc 2 i) in
    let split : (x : ℕ) → x / 2 ^ suc i ≡ x / 2 / 2 ^ i =
      λ x. rw double (sym (div-div-eq-div-mul x 2 (2 ^ i))) in
    rw (split (bit_or a b), split a, split b, half) (or_div i (a / 2) (b / 2))

-- `|` with `m` ones.
or_ones : (m s q : ℕ) → s < 2 ^ m → bit_or (q * 2 ^ m + s) (2 ^ m - 1) ≡ q * 2 ^ m + (2 ^ m - 1)
or_ones zero s q h = ground (arith, bit_or-zero (q + s))
or_ones (suc m) s q h = ground (
  arith,
  or_low (q * 2 ^ suc m + s) (2 ^ suc m - 1),
  two_pow q m,
  pow-suc 2 m,
  one-le-pow m 2,
  or_ones m (s / 2) q (omega (arith, pow-suc 2 m)),
)

product_less_one : (p q : ℕ) → 1 ≤ p → 1 ≤ q → (p - 1) * q + (q - 1) ≡ p * q - 1
product_less_one p q h k =
    let e : p ≡ p - 1 + 1 = omega arith in omega (arith, ap (λ (t : ℕ). t * q) e)

-- `m` ones above `n` ones.
ones_ones : (m n : ℕ) → (2 ^ m - 1) * 2 ^ n + (2 ^ n - 1) ≡ 2 ^ (m + n) - 1
ones_ones m n =
    rw (pow_add m n) (
      product_less_one (2 ^ m) (2 ^ n) (one-le-pow m 2 (omega arith))
        (one-le-pow n 2 (omega arith)))

shift_twice : (m n x : ℕ) → x / 2 ^ m / 2 ^ n ≡ x / 2 ^ (m + n)
shift_twice m n x = rw (pow_add m n) (div-div-eq-div-mul x (2 ^ m) (2 ^ n))

-- `x` has `m` ones on top of `j` other bits.
abbrev pub Top : ℕ → ℕ → ℕ → Type 0
Top j m x = x / 2 ^ j ≡ 2 ^ m - 1

-- Twice as many, where there are as many other bits.
pub smear-Top : (j m x : ℕ) → Top (m + j) m x → Top j (m + m) (smear m x)
smear-Top j m x t =
    let shifted : x / 2 ^ m / 2 ^ j ≡ 2 ^ m - 1 = shift_twice m j x ∙ t in
    let s = x / 2 ^ j % 2 ^ m in
    let order : j + m ≡ m + j = omega arith in
    let high : x / 2 ^ j / 2 ^ m ≡ 2 ^ m - 1 =
      shift_twice j m x ∙ ap (λ (k : ℕ). x / 2 ^ k) order ∙ t in
    let split : x / 2 ^ j ≡ (2 ^ m - 1) * 2 ^ m + s =
      sym (mod-add-div' (x / 2 ^ j) (2 ^ m))
      ∙ ap (λ (k : ℕ). s + k * 2 ^ m) high
      ∙ add_comm s ((2 ^ m - 1) * 2 ^ m) in
    let small : s < 2 ^ m = mod-lt (x / 2 ^ j) (one-le-pow m 2 (omega arith)) in
    or_div j x (x / 2 ^ m)
    ∙ ap (bit_or (x / 2 ^ j)) shifted
    ∙ ap (λ (k : ℕ). bit_or k (2 ^ m - 1)) split
    ∙ or_ones m s (2 ^ m - 1) small
    ∙ ones_ones m m

-- All of them, where there are fewer.
pub smear-fills : (j d x : ℕ) → Top j (j + d) x → smear (j + d) x ≡ 2 ^ (j + d + j) - 1
smear-fills j d x t =
    let r = x % 2 ^ j in
    let split : x ≡ (2 ^ (j + d) - 1) * 2 ^ j + r =
      sym (mod-add-div' x (2 ^ j))
      ∙ ap (λ (k : ℕ). r + k * 2 ^ j) t
      ∙ add_comm r ((2 ^ (j + d) - 1) * 2 ^ j) in
    let small : r < 2 ^ j = mod-lt x (one-le-pow j 2 (omega arith)) in
    let shifted : x / 2 ^ (j + d) ≡ 2 ^ j - 1 =
      sym (shift_twice j d x)
      ∙ ap (λ (k : ℕ). k / 2 ^ d) (t ∙ sym (ones_ones j d))
      ∙ quotient (2 ^ d) (2 ^ j - 1) (2 ^ d - 1) (omega (arith, one-le-pow d 2)) in
    ap (bit_or x) shifted
    ∙ ap (λ (k : ℕ). bit_or k (2 ^ j - 1)) split
    ∙ or_ones j r (2 ^ (j + d) - 1) small
    ∙ ones_ones (j + d) j

-- Ones stay.
pub smear-ones : (m k x : ℕ) → x ≡ 2 ^ k - 1 → smear m x ≡ 2 ^ k - 1
smear-ones m k x e =
    let s = x / 2 ^ m in ap (λ (t : ℕ). bit_or t s) e ∙ bit_or_comm (2 ^ k - 1) s ∙ zero_ones
  where
    zero_ones : bit_or (x / 2 ^ m) (2 ^ k - 1) ≡ 2 ^ k - 1
    zero_ones =
        let small : x / 2 ^ m < 2 ^ k = omega (arith, e, div-le_self x (2 ^ m), one-le-pow k 2) in
        let sum : 0 * 2 ^ k + x / 2 ^ m ≡ x / 2 ^ m = omega arith in
        ap (λ (t : ℕ). bit_or t (2 ^ k - 1)) (sym sum) ∙ or_ones k (x / 2 ^ m) 0 small ∙ omega arith

-- Where the smearing has got with a number of `k` bits, after steps that reach `m` bits.
abbrev Reached : ℕ → ℕ → ℕ → Type 0
Reached k m x = ((j : ℕ) × (m + j ≡ k) × Top j m x) ⊎ (x ≡ 2 ^ k - 1)

smear-Reached : (k m x : ℕ) → Reached k m x → Reached k (m + m) (smear m x)
smear-Reached k m x (inr e) = inr (smear-ones m k x e)
smear-Reached k m x (inl (j, e, t)) = elim (dec_le m j) [
  | yes h ↦
      let i = j - m in
      let more : j ≡ m + i = omega arith in
      inl (i, omega arith, smear-Top i m x (ap (λ (n : ℕ). x / 2 ^ n) (sym more) ∙ t))
  | no h ↦
      let d = m - j in
      let more : j + d ≡ m = omega arith in
      let all : j + d + j ≡ k = omega arith in
      inr (
        ap (λ (n : ℕ). smear n x) (sym more)
        ∙ smear-fills j d x (t ∙ ap (λ (n : ℕ). 2 ^ n - 1) (sym more))
        ∙ ap (λ (n : ℕ). 2 ^ n - 1) all)
]

-- More steps than bits leave ones alone.
Reached-ones : (k m x : ℕ) → k < m → Reached k m x → x ≡ 2 ^ k - 1
Reached-ones k m x h (inl (j, e, t)) = absurd (omega arith)
Reached-ones k m x h (inr e) = e

-- The number of bits of a number that is not zero.
bits : (w x : ℕ) → 0 < x → x < 2 ^ w → (k : ℕ) × (k < w) × (2 ^ k ≤ x) × (x < 2 ^ suc k)
bits zero x p h = absurd (omega arith)
bits (suc w) x p h = elim (dec_le (2 ^ w) x) [
  | yes l ↦ (w, omega arith, l, h)
  | no l ↦ let (k, b, lo, hi) = bits w x p (omega arith) in (k, omega arith, lo, hi)
]

start : (k x : ℕ) → 2 ^ k ≤ x → x < 2 ^ suc k → Reached (suc k) 1 x
start k x lo hi =
    let split : x ≡ 1 * 2 ^ k + (x - 2 ^ k) = omega arith in
    inl (
      k,
      omega arith,
      ap (λ (t : ℕ). t / 2 ^ k) split ∙ quotient (2 ^ k) 1 (x - 2 ^ k) (omega (arith, pow-suc 2 k)),
    )

-- The steps by 1, 2, 4, 8 and 16 bits fill a number of fewer than 32 bits with ones.
pub smear_32 :
    (x : ℕ)
    → 0 < x
    → x < 2 ^ 31
    → (k : ℕ) × (2 ^ k ≤ x)
      × (x < 2 ^ suc k)
      × (k < 31)
      × (smear 16 (smear 8 (smear 4 (smear 2 (smear 1 x)))) ≡ 2 ^ suc k - 1)
smear_32 x p h =
    let (k, b, lo, hi) = bits 31 x p h in
    let r1 = smear-Reached (suc k) 1 x (start k x lo hi) in
    let r2 = smear-Reached (suc k) 2 (smear 1 x) r1 in
    let r4 = smear-Reached (suc k) 4 (smear 2 (smear 1 x)) r2 in
    let r8 = smear-Reached (suc k) 8 (smear 4 (smear 2 (smear 1 x))) r4 in
    let r16 = smear-Reached (suc k) 16 (smear 8 (smear 4 (smear 2 (smear 1 x)))) r8 in
    (k, lo, hi, b, Reached-ones (suc k) 32 _ (omega arith) r16)

-- With a step by 32 bits, a number of fewer than 64 bits.
pub smear_64 :
    (x : ℕ)
    → 0 < x
    → x < 2 ^ 63
    → (k : ℕ) × (2 ^ k ≤ x)
      × (x < 2 ^ suc k)
      × (k < 63)
      × (smear 32 (smear 16 (smear 8 (smear 4 (smear 2 (smear 1 x))))) ≡ 2 ^ suc k - 1)
smear_64 x p h =
    let (k, b, lo, hi) = bits 63 x p h in
    let r1 = smear-Reached (suc k) 1 x (start k x lo hi) in
    let r2 = smear-Reached (suc k) 2 (smear 1 x) r1 in
    let r4 = smear-Reached (suc k) 4 (smear 2 (smear 1 x)) r2 in
    let r8 = smear-Reached (suc k) 8 (smear 4 (smear 2 (smear 1 x))) r4 in
    let r16 = smear-Reached (suc k) 16 (smear 8 (smear 4 (smear 2 (smear 1 x)))) r8 in
    let r32 = smear-Reached (suc k) 32 (smear 16 (smear 8 (smear 4 (smear 2 (smear 1 x))))) r16 in
    (k, lo, hi, b, Reached-ones (suc k) 64 _ (omega arith) r32)
