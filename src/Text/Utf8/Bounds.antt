-- ===== src/Text/Utf8/Bounds.antt =====
-- utf8.cpp: no read outside the buffer, and where an increment leaves the offset.
use native.Mathlib.Decide.{dec_le}
use hologine.Base.{
  ℕ, zero, suc, ◌+◌, ◌-◌, ◌^◌, ◌≤◌, ◌<◌, ◌≡◌, refl, ◌≢◌, ◌⊎◌, inl, inr, Bool, true, false, some,
  List, arith, length, get_elem?-some, Bool-cases, if◌then◌else◌,
}
use hologine.Exception.Codes.{ExceptionCode, Numbering, is_none, passes, passes-cases}
use hologine.Text.Utf8.{
  Decoded, get_utf8_sequence_length, get_code_point_utf8_sequence_length, is_valid_code_point,
  is_utf8_trail_byte, trail_bytes, sequence_value, check_code_point, decode_sequence,
  utf8_increment, decoded, value_of_two, value_of_three, value_of_four,
}

-- A lead byte announces one to four bytes, or it is refused.
pub sequence_length_cases :
    (lead : ℕ)
    → ((get_utf8_sequence_length lead).0 ≡ ExceptionCode.none)
        × (1 ≤ (get_utf8_sequence_length lead).1)
        × ((get_utf8_sequence_length lead).1 ≤ 4)
      ⊎ (get_utf8_sequence_length lead ≡ (ExceptionCode.invalid_unicode_lead, 0))
unfolding get_utf8_sequence_length
sequence_length_cases lead = ground arith

pub trail_bytes-some :
    (string : List ℕ) (at count : ℕ)
    → at + count ≤ length string
    → (b : Bool) × (trail_bytes string at count ≡ some b)
unfolding trail_bytes
trail_bytes-some string at zero h = (true, refl)
trail_bytes-some string at (suc count) h =
    let (byte, e) = get_elem?-some string at (omega arith) in
    let (b, r) = trail_bytes-some string (at + 1) count (omega arith) in
    (if is_utf8_trail_byte byte then b else false, ground (arith, e, r))

sequence_value-some :
    (string : List ℕ) (offset n : ℕ)
    → 1 ≤ n
    → n ≤ 4
    → offset + n ≤ length string
    → (v : ℕ) × (sequence_value string offset n ≡ some v)
unfolding sequence_value
sequence_value-some string offset zero p q h = absurd (omega arith)
sequence_value-some string offset (suc zero) p q h =
    let (a, ea) = get_elem?-some string offset (omega arith) in (a, ground (arith, ea))
sequence_value-some string offset (suc (suc zero)) p q h =
    let (a, ea) = get_elem?-some string offset (omega arith) in
    let (b, eb) = get_elem?-some string (offset + 1) (omega arith) in
    (value_of_two a b, ground (arith, ea, eb))
sequence_value-some string offset (suc (suc (suc zero))) p q h =
    let (a, ea) = get_elem?-some string offset (omega arith) in
    let (b, eb) = get_elem?-some string (offset + 1) (omega arith) in
    let (c, ec) = get_elem?-some string (offset + 2) (omega arith) in
    (value_of_three a b c, ground (arith, ea, eb, ec))
sequence_value-some string offset (suc (suc (suc (suc zero)))) p q h =
    let (a, ea) = get_elem?-some string offset (omega arith) in
    let (b, eb) = get_elem?-some string (offset + 1) (omega arith) in
    let (c, ec) = get_elem?-some string (offset + 3) (omega arith) in
    (value_of_four a b c, ground (arith, ea, eb, ec))
sequence_value-some string offset (suc (suc (suc (suc (suc n))))) p q h = absurd (omega arith)

-- A code point that passes the checks is valid, and its shortest encoding has this length.
check_code_point-none :
    (n v : ℕ)
    → check_code_point n v ≡ ExceptionCode.none
    → (is_valid_code_point v ≡ true) × (get_code_point_utf8_sequence_length v ≡ n)
unfolding check_code_point
check_code_point-none n v h = ground arith

-- What the body behind the bounds test can return.
decode_sequence-some :
    (string : List ℕ) (offset n value : ℕ)
    → 1 ≤ n
    → n ≤ 4
    → offset + n ≤ length string
    → (r : ExceptionCode × ℕ) × (decode_sequence string offset n value ≡ some r)
      × (r.0 ≡ ExceptionCode.none
          → (is_valid_code_point r.1 ≡ true) × (get_code_point_utf8_sequence_length r.1 ≡ n))
unfolding decode_sequence
decode_sequence-some string offset n value p q h =
    let (complete, et) = trail_bytes-some string (offset + 1) (n - 1) (omega arith) in
    let (v, ev) = sequence_value-some string offset n p q h in
    elim (Bool-cases complete) [
      | inl y ↦ ((check_code_point n v, v), ground (arith, et, ev), check_code_point-none n v)
      | inr n ↦ ((ExceptionCode.incomplete_unicode_sequence, value), ground (arith, et), λ e. cc)
    ]

-- What `utf8_increment` promises: on success the offset moves on by the length of the shortest
-- encoding of a valid code point and stays within the bounds; on failure it is untouched.
abbrev pub Stepped : ℕ → ℕ → Decoded → Type 0
Stepped length offset d =
    (d.exception ≡ ExceptionCode.none)
      × (d.offset ≤ length)
      × (offset + get_code_point_utf8_sequence_length d.value ≡ d.offset)
      × (is_valid_code_point d.value ≡ true)
    ⊎ (d.exception ≢ ExceptionCode.none) × (d.offset ≡ offset)

Stepped-code :
    (len offset n v : ℕ) (code : ExceptionCode)
    → offset + n ≤ len
    → (code ≡ ExceptionCode.none
        → (is_valid_code_point v ≡ true) × (get_code_point_utf8_sequence_length v ≡ n))
    → Stepped len offset (decoded code (if passes code then offset + n else offset) v)
Stepped-code len offset n v code h good = elim (passes-cases code) [
  | inl e ↦ inl (ground (arith, e, good e))
  | inr (ne, e) ↦ inr (ne, rw e)
]

-- Whatever the numbers of the exception codes, with the offset before a length that lies within the
-- buffer, `utf8_increment` reads no byte outside of the buffer, and either it returns the constant
-- `none` and moves the offset on by the length of the shortest encoding of a valid code point, which
-- it returns, without passing the length, or it returns another constant, whose number may be that
-- of `none` all the same, and leaves the offset alone.
pub utf8_increment-Stepped :
    ⦃codes : Numbering⦄ (string : List ℕ) (len offset value : ℕ)
    → offset < len
    → len ≤ length string
    → len < 2 ^ 64
    → (d : Decoded) × (utf8_increment string len offset value ≡ some d) × Stepped len offset d
unfolding utf8_increment
utf8_increment-Stepped string len offset value inside readable small =
    let (lead, e) = get_elem?-some string offset (omega arith) in
    let n = (get_utf8_sequence_length lead).1 in
    elim (sequence_length_cases lead) [
      | inl (ok, p, q) ↦ elim (dec_le (offset + n) len) [
        | yes h ↦
            let (r, er, good) = decode_sequence-some string offset n value p q (omega arith) in
            (
              decoded r.0 (if passes r.0 then offset + n else offset) r.1,
              ground (arith, e, ok, er),
              Stepped-code len offset n r.1 r.0 h good,
            )
        | no h ↦ (
          decoded ExceptionCode.index_out_of_range offset value,
          ground (arith, e, ok),
          inr (λ h. cc, refl),
        )
      ]
      | inr bad ↦ elim (Bool-cases (is_none ExceptionCode.invalid_unicode_lead)) [
        | inl same ↦ (
          decoded ExceptionCode.index_out_of_range offset value,
          ground (arith, e, bad, same),
          inr (λ h. cc, refl),
        )
        | inr differs ↦ (
          decoded ExceptionCode.invalid_unicode_lead offset value,
          ground (arith, e, bad, differs),
          inr (λ h. cc, refl),
        )
      ]
    ]
