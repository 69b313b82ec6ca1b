-- ===== src/Handle/Fields.antt =====
-- handle.hpp: what `encode` makes of the fields, and what the `decode` functions find again.
use hologine.Base.{
  ℕ, zero, suc, ◌+◌, ◌*◌, ◌/◌, ◌%◌, ◌^◌, ◌≤◌, ◌<◌, ◌≡◌, sym, ap, bit_and, bit_or, true, arith,
}
use hologine.Base.Bits.{and_mask, or_above, or_fields, pow_add, mul_add_lt, shift_fits, quotient}
use hologine.Handle.{
  HandleDefinition, mask, shift_left, age_shift, encode, is_type, decode_age, decode_scope,
  decode_index,
}
use native.Mathlib.Nat.{
  pow-suc, mul_assoc, mul_comm, mod-eq_of_lt, add-mul-mod_self_right, div-div-eq-div-mul,
}

-- A definition whose fields fill the 56 bits below the type, with no field that is empty or too
-- wide for its mask.
pub record IsFull (d : HandleDefinition) : Type 0 where
  pub type : d.type < 2 ^ 8
  pub age : (0 < d.age) × (d.age ≤ 29)
  pub scope : (0 < d.scope) × (d.scope ≤ 29)
  pub index : (0 < d.index) × (d.index ≤ 29)
  pub total : d.age + d.scope + d.index ≡ 56

-- Values that fit in the bits of their fields.
pub record Fits (d : HandleDefinition) (age scope index : ℕ) : Type 0 where
  pub age_fits : age < 2 ^ d.age
  pub scope_fits : scope < 2 ^ d.scope
  pub index_fits : index < 2 ^ d.index

and-mask : (n a : ℕ) → 0 < n → bit_and a (mask n) ≡ a % (2 ^ n * 2)
unfolding mask
and-mask n a h = ground (arith, and_mask (n + 1) a, pow-suc 2 n)

-- The mask keeps a value that fits in its field.
and-mask_fits : (n a : ℕ) → 0 < n → a < 2 ^ n → bit_and a (mask n) ≡ a
and-mask_fits n a h l =
    omega (arith, and-mask n a h, mod-eq_of_lt {n = a} {m = 2 ^ n * 2} (omega arith))

div_two : (q : ℕ) → q ≡ q % 2 + q / 2 * 2
div_two q = omega arith

mul_add_lt_two : (q m r : ℕ) → r < m → q % 2 * m + r < m * 2
mul_add_lt_two q m r h = omega (arith, mul_add_lt 2 m (q % 2) r (omega arith) h)

-- A mask that is a bit too wide takes in the lowest bit above the field.
carry : (m q r : ℕ) → r < m → (q * m + r) % (m * 2) ≡ q % 2 * m + r
carry m q r h =
    let e : q * m + r ≡ q % 2 * m + r + q / 2 * (m * 2) =
      omega (arith, ap (λ (t : ℕ). t * m) (div_two q), mul_assoc (q / 2) 2 m) in
    rw (e, add-mul-mod_self_right (q % 2 * m + r) (q / 2) (m * 2))
      (mod-eq_of_lt (mul_add_lt_two q m r h))

-- The four fields side by side.
abbrev fields : HandleDefinition → ℕ → ℕ → ℕ → ℕ
fields d age scope index = ((d.type * 2 ^ d.age + age) * 2 ^ d.scope + scope) * 2 ^ d.index + index

encode-fields :
    (d : HandleDefinition) (age scope index : ℕ)
    → IsFull d
    → Fits d age scope index
    → encode d age scope index ≡ fields d age scope index
unfolding encode
encode-fields d age scope index w f =
    let total : d.age + age_shift d ≡ 56 = omega (arith, w.total) in
    let e56 : 2 ^ 56 ≡ 2 ^ d.age * 2 ^ age_shift d =
      omega (arith, pow_add d.age (age_shift d), ap (λ (t : ℕ). 2 ^ t) total) in
    let es : 2 ^ age_shift d ≡ 2 ^ d.scope * 2 ^ d.index =
      omega (arith, pow_add d.index d.scope, mul_comm (2 ^ d.scope) (2 ^ d.index)) in
    let t : shift_left (bit_and d.type 0xff) 56 ≡ d.type * 2 ^ d.age * 2 ^ age_shift d = omega (
      arith,
      and_mask 8 d.type,
      ap (λ (t : ℕ). d.type * t) e56,
      mul_assoc d.type (2 ^ d.age) (2 ^ age_shift d),
      w.type,
    ) in
    let a : shift_left (bit_and age (mask d.age)) (age_shift d) ≡ age * 2 ^ age_shift d =
      rw (and-mask_fits d.age age w.age.0 f.age_fits)
        (shift_fits d.age (age_shift d) age f.age_fits (omega (arith, w.total))) in
    let s : shift_left (bit_and scope (mask d.scope)) d.index ≡ scope * 2 ^ d.index =
      rw (and-mask_fits d.scope scope w.scope.0 f.scope_fits)
        (shift_fits d.scope d.index scope f.scope_fits (omega (arith, w.total))) in
    let i : shift_left (bit_and index (mask d.index)) 0 ≡ index =
      rw (and-mask_fits d.index index w.index.0 f.index_fits)
        (omega (arith, shift_fits d.index 0 index f.index_fits (omega (arith, w.total)))) in
    let n₁ : ℕ = d.type * 2 ^ d.age + age in
    let n₂ : ℕ = n₁ * 2 ^ d.scope + scope in
    let e : n₁ * 2 ^ age_shift d ≡ n₁ * 2 ^ d.scope * 2 ^ d.index =
      omega (arith, ap (λ (t : ℕ). n₁ * t) es, mul_assoc n₁ (2 ^ d.scope) (2 ^ d.index)) in
    let ta : bit_or (d.type * 2 ^ d.age * 2 ^ age_shift d) (age * 2 ^ age_shift d)
        ≡ n₁ * 2 ^ d.scope * 2 ^ d.index =
      rw (sym e) (or_above d.age (age_shift d) d.type age f.age_fits) in
    let tas : bit_or (n₁ * 2 ^ d.scope * 2 ^ d.index) (scope * 2 ^ d.index) ≡ n₂ * 2 ^ d.index =
      or_above d.scope d.index n₁ scope f.scope_fits in
    rw (t, a, s, i, ta, tas) (or_fields d.index n₂ index f.index_fits)

low_bit : (n q r : ℕ) → 0 < n → (q * 2 ^ n + r) % 2 ≡ r % 2
low_bit zero q r h = absurd (omega arith)
low_bit (suc n) q r h = omega (arith, ap (λ (t : ℕ). q * t) (pow-suc 2 n), mul_assoc q (2 ^ n) 2)

unshifted : (x : ℕ) → x / 2 ^ 0 ≡ x
unshifted x = omega arith

-- What the shifts of the `decode` functions leave.
record Quotients (d : HandleDefinition) (a s i : ℕ) : Type 0 where
  by_index : fields d a s i / 2 ^ d.index ≡ (d.type * 2 ^ d.age + a) * 2 ^ d.scope + s
  by_age : fields d a s i / 2 ^ age_shift d ≡ d.type * 2 ^ d.age + a
  by_type : fields d a s i / 2 ^ 56 ≡ d.type

fields-Quotients :
    (d : HandleDefinition) (age scope index : ℕ)
    → IsFull d
    → Fits d age scope index
    → Quotients d age scope index
fields-Quotients d age scope index w f =
    let n₁ : ℕ = d.type * 2 ^ d.age + age in
    let n₂ : ℕ = n₁ * 2 ^ d.scope + scope in
    let e₂ : fields d age scope index / 2 ^ d.index ≡ n₂ =
      quotient (2 ^ d.index) n₂ index f.index_fits in
    let e₁ : fields d age scope index / 2 ^ age_shift d ≡ n₁ =
      rw
        (
          pow_add d.index d.scope,
          sym (div-div-eq-div-mul (fields d age scope index) (2 ^ d.index) (2 ^ d.scope)),
          e₂,
        )
        (quotient (2 ^ d.scope) n₁ scope f.scope_fits) in
    let total : age_shift d + d.age ≡ 56 = omega (arith, w.total) in
    record {
      by_index = e₂;
      by_age = e₁;
      by_type =
          rw
            (
              ap (λ (t : ℕ). fields d age scope index / 2 ^ t) (sym total),
              pow_add (age_shift d) d.age,
              sym (div-div-eq-div-mul (fields d age scope index) (2 ^ age_shift d) (2 ^ d.age)),
              e₁,
            )
            (quotient (2 ^ d.age) d.type age f.age_fits);
    }

-- In a definition whose four fields have 1 to 29 bits each and fill the handle, `encode` lays the values that fit in their fields
-- side by side, the type in the highest eight bits, and `is_type` finds the type again. But a mask
-- has one bit more than its field, so each `decode` function returns its field with the
-- lowest bit of the field above it on top: the index with that of the scope, the scope with that of
-- the age, the age with that of the type.
pub decode-encode :
    (d : HandleDefinition) (age scope index : ℕ)
    → IsFull d
    → Fits d age scope index
    → (is_type d (encode d age scope index) ≡ true)
      × (decode_index d (encode d age scope index) ≡ scope % 2 * 2 ^ d.index + index)
      × (decode_scope d (encode d age scope index) ≡ age % 2 * 2 ^ d.scope + scope)
      × (decode_age d (encode d age scope index) ≡ d.type % 2 * 2 ^ d.age + age)
unfolding is_type decode_index decode_scope decode_age
decode-encode d age scope index w f =
    let n₁ : ℕ = d.type * 2 ^ d.age + age in
    let n₂ : ℕ = n₁ * 2 ^ d.scope + scope in
    let q = fields-Quotients d age scope index w f in
    rw (encode-fields d age scope index w f) (
      ground (arith, q.by_type, and_mask 8 d.type, w.type),
      rw (unshifted (fields d age scope index)) (
          omega (
            arith,
            and-mask d.index (fields d age scope index) w.index.0,
            carry (2 ^ d.index) n₂ index f.index_fits,
            ap (λ (t : ℕ). t * 2 ^ d.index) (low_bit d.scope n₁ scope w.scope.0),
          )),
      rw q.by_index (
          omega (
            arith,
            and-mask d.scope n₂ w.scope.0,
            carry (2 ^ d.scope) n₁ scope f.scope_fits,
            ap (λ (t : ℕ). t * 2 ^ d.scope) (low_bit d.age d.type age w.age.0),
          )),
      rw q.by_age
          (omega (arith, and-mask d.age n₁ w.age.0, carry (2 ^ d.age) d.type age f.age_fits)),
    )
