-- ===== src/Math/Util/Powers.antt =====
-- util.hpp and util.cpp: powers of two.
use native.Mathlib.Nat.{pow-le-pow_right, one-le-pow, pow-suc, add-mul-mod_self_right, mod-eq_of_lt}
use native.Mathlib.Decide.{ℕ_discrete}
use hologine.Base.{
  ℕ, zero, suc, ◌+◌, ◌-◌, ◌*◌, ◌/◌, ◌%◌, ◌^◌, ◌≤◌, ◌<◌, ◌≡◌, ◌≢◌, refl, ◌∙◌, false, bit_and, arith,
  min,
}
use hologine.Base.Bits.{and_low}
use hologine.Math.Util.Smear.{smear_32, smear_64}
use hologine.Math.Util.{is_power_of_two, next_power_of_two, new_power_of_two}

-- A number and its negation have their lowest bit in common.
lowest_bit : (w v : ℕ) → 0 < v → v < 2 ^ w → bit_and v (2 ^ w - v) ≢ 0
lowest_bit zero v p h e = absurd (omega arith)
lowest_bit (suc w) v p h e = elim (ℕ_discrete (v % 2) 0) [
  | no odd ↦
      let l = and_low v (2 ^ suc w - v) in absurd (omega (arith, l, pow-suc 2 w, one-le-pow w 2))
  | yes even ↦
      let half : (2 ^ suc w - v) / 2 ≡ 2 ^ w - v / 2 = omega (arith, pow-suc 2 w) in
      let l : bit_and v (2 ^ suc w - v)
          ≡ bit_and (v / 2) (2 ^ w - v / 2) * 2 + min (v % 2) ((2 ^ suc w - v) % 2) =
        rw (← half) (and_low v (2 ^ suc w - v)) in
      lowest_bit w (v / 2) (omega (arith, even)) (omega (arith, pow-suc 2 w)) (omega (arith, l, e))
]

-- The test never holds: `value & ~(value - 1)` is the lowest bit of the value, which is not zero.
pub is_power_of_two-false : (w value : ℕ) → value < 2 ^ w → is_power_of_two w value ≡ false
unfolding is_power_of_two
is_power_of_two-false w value h = elim (ℕ_discrete value 0) [
  | yes z ↦ ground (arith, z)
  | no n ↦
      let one = one-le-pow w 2 in
      let less : (value + 2 ^ w - 1) % 2 ^ w ≡ value - 1 =
        let sum : value + 2 ^ w - 1 ≡ value - 1 + 1 * 2 ^ w = omega (arith, n) in
        rw sum (add-mul-mod_self_right (value - 1) 1 (2 ^ w) ∙ mod-eq_of_lt (omega (arith, h))) in
      let complement : 2 ^ w - 1 - (value - 1) ≡ 2 ^ w - value = omega (arith, n) in
      let bit = lowest_bit w value (omega (arith, n)) h in ground (arith, n, less, complement, bit)
]

-- A power of two that is not below the value, and whose half is.
abbrev pub IsNextPower : ℕ → ℕ → Type 0
IsNextPower value power = (k : ℕ) × (power ≡ 2 ^ k) × (value ≤ 2 ^ k) × (2 ^ k < 2 * value)

next_32 : (value : ℕ) → 0 < value → value ≤ 2 ^ 31 → IsNextPower value (next_power_of_two value)
unfolding next_power_of_two
next_32 value p h = elim (ℕ_discrete value 1) [
  | yes one ↦ (0, rw one refl, omega (arith, one), omega (arith, one))
  | no more ↦
      let (k, lo, hi, b, e) = smear_32 (value - 1) (omega (arith, more)) (omega arith) in
      let less : (value + 2 ^ 32 - 1) % 2 ^ 32 ≡ value - 1 = omega (arith, p) in
      let small : 2 ^ suc k ≤ 2 ^ 31 =
        pow-le-pow_right (omega arith) {i = suc k} {j = 31} (omega arith) in
      (
        suc k,
        rw (less, e) (omega (arith, small, one-le-pow (suc k) 2)),
        omega arith,
        omega (arith, pow-suc 2 k, p),
      )
]

next_64 : (value : ℕ) → 0 < value → value ≤ 2 ^ 63 → IsNextPower value (new_power_of_two value)
unfolding new_power_of_two
next_64 value p h = elim (ℕ_discrete value 1) [
  | yes one ↦ (0, rw one refl, omega (arith, one), omega (arith, one))
  | no more ↦
      let (k, lo, hi, b, e) = smear_64 (value - 1) (omega (arith, more)) (omega arith) in
      let less : (value + 2 ^ 64 - 1) % 2 ^ 64 ≡ value - 1 = omega (arith, p) in
      let small : 2 ^ suc k ≤ 2 ^ 63 =
        pow-le-pow_right (omega arith) {i = suc k} {j = 63} (omega arith) in
      (
        suc k,
        rw (less, e) (omega (arith, small, one-le-pow (suc k) 2)),
        omega arith,
        omega (arith, pow-suc 2 k, p),
      )
]

-- Both functions return the least power of two that is not below the value, for values that are not
-- zero and have such a power in their word.
pub next_power_of_two_lem :
    (value value' : ℕ)
    → 0 < value
    → value ≤ 2 ^ 31
    → 0 < value'
    → value' ≤ 2 ^ 63
    → IsNextPower value (next_power_of_two value) × IsNextPower value' (new_power_of_two value')
next_power_of_two_lem value value' p h p' h' = (next_32 value p h, next_64 value' p' h')
