-- ===== src/Math/Util/Rounding.antt =====
-- math/util.hpp: what rounding gives where nothing wraps.
use hologine.Base.{ℕ, ◌+◌, ◌-◌, ◌*◌, ◌/◌, ◌%◌, ◌^◌, ◌≤◌, ◌<◌, ◌≡◌, arith}
use hologine.Math.Util.{round_up, multiple_of}
use native.Mathlib.Nat.{mod-lt, mod-add-div', mul-div_cancel}

-- The wrapping subtractions come out even.
round_up-sub :
    (value factor : ℕ)
    → 0 < value
    → 0 < factor
    → value + factor ≤ 2 ^ 64
    → round_up value factor ≡ value - 1 + factor - (value - 1) % factor
unfolding round_up
round_up-sub value factor p q h =
    let e : (value + 2 ^ 64 - 1) % 2 ^ 64 ≡ value - 1 = omega arith in
    rw e (omega (arith, mod-lt (value - 1) {m = factor} q))

pub round_up_lem :
    (value factor : ℕ)
    → 0 < value
    → 0 < factor
    → value + factor ≤ 2 ^ 64
    → round_up value factor ≡ ((value - 1) / factor + 1) * factor
round_up_lem value factor p q h = omega (
  arith,
  round_up-sub value factor p q h,
  mod-add-div' (value - 1) factor,
  mod-lt (value - 1) {m = factor} q,
)

pub multiple_of_lem :
    (value factor : ℕ)
    → 0 < value
    → 0 < factor
    → value + factor ≤ 2 ^ 64
    → multiple_of value factor ≡ (value - 1) / factor + 1
unfolding multiple_of
multiple_of_lem value factor p q h =
    rw (round_up_lem value factor p q h) (mul-div_cancel ((value - 1) / factor + 1) q)
