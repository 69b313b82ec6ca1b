-- ===== src/Memory/Allocator/Alignment.antt =====
-- allocator.cpp: what alignment to a power of two gives.
use hologine.Base.{ℕ, ◌+◌, ◌-◌, ◌*◌, ◌/◌, ◌%◌, ◌^◌, ◌≤◌, ◌<◌, ◌≡◌, ap, arith}
use hologine.Base.Bits.{and_field, pow_add, quotient}
use hologine.Memory.Allocator.{align_pointer, get_pointer_distance}
use native.Mathlib.Nat.{
  mul_comm, mul-sub, one-le-pow, mod-lt, mod-add-div', mod-eq_of_lt, div-lt_iff_lt-mul,
}

sub_add : (k : ℕ) → k ≤ 63 → 64 - k + k ≡ 64
sub_add k h = omega arith

pred_mul : (a b : ℕ) → (a - 1) * b ≡ a * b - b
pred_mul a b = omega (arith, mul_comm (a - 1) b, mul-sub b a 1, mul_comm a b)

-- A pointer that is not at the end of the address space is rounded up to a multiple.
pub align_pointer_lem :
    (k pointer : ℕ)
    → k ≤ 63
    → pointer + 2 ^ k ≤ 2 ^ 64
    → align_pointer pointer (2 ^ k) ≡ (pointer + (2 ^ k - 1)) / 2 ^ k * 2 ^ k
unfolding align_pointer
align_pointer_lem k pointer h l =
    let w : (2 ^ k + 2 ^ 64 - 1) % 2 ^ 64 ≡ 2 ^ k - 1 = omega (arith, one-le-pow k 2) in
    let p : 2 ^ (64 - k) * 2 ^ k ≡ 2 ^ 64 =
      omega (arith, pow_add (64 - k) k, ap (λ (t : ℕ). 2 ^ t) (sub_add k h)) in
    let m : 2 ^ 64 - 1 - (2 ^ k - 1) ≡ (2 ^ (64 - k) - 1) * 2 ^ k =
      omega (arith, p, pred_mul (2 ^ (64 - k)) (2 ^ k)) in
    let s : (pointer + (2 ^ k - 1)) % 2 ^ 64 ≡ pointer + (2 ^ k - 1) =
      omega (arith, one-le-pow k 2) in
    rw (w, s, m, and_field k (64 - k) (pointer + (2 ^ k - 1)))
      (ap (λ (t : ℕ). t * 2 ^ k)
        (mod-eq_of_lt (
          (div-lt_iff_lt-mul {k = 2 ^ k} {x = pointer + (2 ^ k - 1)} {y = 2 ^ (64 - k)}
              (one-le-pow k 2 (omega arith))).1
            (omega (arith, p)))))

-- It is moved by less than the alignment, and never down.
pub align_pointer-bounds :
    (k pointer : ℕ)
    → k ≤ 63
    → pointer + 2 ^ k ≤ 2 ^ 64
    → (pointer ≤ align_pointer pointer (2 ^ k)) × (align_pointer pointer (2 ^ k) < pointer + 2 ^ k)
align_pointer-bounds k pointer h l = omega (
  arith,
  align_pointer_lem k pointer h l,
  one-le-pow k 2,
  mod-add-div' (pointer + (2 ^ k - 1)) (2 ^ k),
  mod-lt (pointer + (2 ^ k - 1)) {m = 2 ^ k} (one-le-pow k 2 (omega arith)),
)

-- The distance of a pointer from one that is not behind it.
pub get_pointer_distance_lem :
    (left right : ℕ) → right ≤ left → left < 2 ^ 64 → get_pointer_distance left right ≡ left - right
unfolding get_pointer_distance
get_pointer_distance_lem left right h l = omega arith

-- An aligned pointer stays where it is.
pub align_pointer_self :
    (k pointer : ℕ)
    → k ≤ 63
    → pointer + 2 ^ k ≤ 2 ^ 64
    → align_pointer pointer (2 ^ k) + 2 ^ k ≤ 2 ^ 64
    → align_pointer (align_pointer pointer (2 ^ k)) (2 ^ k) ≡ align_pointer pointer (2 ^ k)
align_pointer_self k pointer h l m =
    let q : ℕ = (pointer + (2 ^ k - 1)) / 2 ^ k in
    let e : align_pointer pointer (2 ^ k) ≡ q * 2 ^ k = align_pointer_lem k pointer h l in
    let n : q * 2 ^ k + 2 ^ k ≤ 2 ^ 64 = omega (arith, e, m) in
    rw (e, align_pointer_lem k (q * 2 ^ k) h n)
      (ap (λ (t : ℕ). t * 2 ^ k) (quotient (2 ^ k) q (2 ^ k - 1) (omega (arith, one-le-pow k 2))))
