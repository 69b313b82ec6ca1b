-- ===== src/Text/Utf8/RoundTrip.antt =====
-- utf8.cpp against the UTF-8 encoding of code points, which the standard fixes and the source
-- does not write.
use native.Mathlib.Decide.{dec_lt}
use hologine.Base.{
  ℕ, ◌+◌, ◌*◌, ◌/◌, ◌%◌, ◌^◌, ◌≤◌, ◌<◌, ◌≡◌, true, some, List, [], ◌∷◌, ◌++◌, arith, ltb,
  if◌then◌else◌, length, get_elem?-append,
}
use hologine.Exception.Codes.{ExceptionCode, Numbering, passes}
use hologine.Text.Utf8.{
  decoded, get_utf8_sequence_length, get_code_point_utf8_sequence_length, is_valid_code_point,
  is_utf8_trail_byte, trail_bytes, sequence_value, check_code_point, decode_sequence,
  utf8_increment,
}
use hologine.Text.Utf8.Values.{value_of_two_lem, value_of_three_lem, value_of_four_lem}

unfoldable pub encode : ℕ → List ℕ
encode cp =
    if ltb cp 0x80
    then cp ∷ []
    else if ltb cp 0x800
    then (0xc0 + cp / 2 ^ 6) ∷ (0x80 + cp % 2 ^ 6) ∷ []
    else if ltb cp 0x10000
    then (0xe0 + cp / 2 ^ 12) ∷ (0x80 + cp / 2 ^ 6 % 2 ^ 6) ∷ (0x80 + cp % 2 ^ 6) ∷ []
    else (0xf0 + cp / 2 ^ 18)
      ∷ (0x80 + cp / 2 ^ 12 % 2 ^ 6)
      ∷ (0x80 + cp / 2 ^ 6 % 2 ^ 6)
      ∷ (0x80 + cp % 2 ^ 6)
      ∷ []

encode_one : (cp : ℕ) → cp < 0x80 → encode cp ≡ cp ∷ []
unfolding encode
encode_one cp h = ground arith

encode_two :
    (cp : ℕ) → 0x80 ≤ cp → cp < 0x800 → encode cp ≡ (0xc0 + cp / 2 ^ 6) ∷ (0x80 + cp % 2 ^ 6) ∷ []
unfolding encode
encode_two cp g h = ground arith

encode_three :
    (cp : ℕ)
    → 0x800 ≤ cp
    → cp < 0x10000
    → encode cp ≡ (0xe0 + cp / 2 ^ 12) ∷ (0x80 + cp / 2 ^ 6 % 2 ^ 6) ∷ (0x80 + cp % 2 ^ 6) ∷ []
unfolding encode
encode_three cp g h = ground arith

encode_four :
    (cp : ℕ)
    → 0x10000 ≤ cp
    → encode cp
      ≡ (0xf0 + cp / 2 ^ 18)
        ∷ (0x80 + cp / 2 ^ 12 % 2 ^ 6)
        ∷ (0x80 + cp / 2 ^ 6 % 2 ^ 6)
        ∷ (0x80 + cp % 2 ^ 6)
        ∷ []
unfolding encode
encode_four cp g = ground arith

-- A valid code point passes the checks at the length of its encoding.
check_encode :
    (cp : ℕ)
    → is_valid_code_point cp ≡ true
    → check_code_point (get_code_point_utf8_sequence_length cp) cp ≡ ExceptionCode.none
unfolding check_code_point
check_encode cp valid = ground arith

module _ ⦃codes : Numbering⦄ (front rest : List ℕ) (len value : ℕ) (small : len < 2 ^ 64) where
  abbrev start : ℕ
  start = length front

  increment_one :
      (a : ℕ)
      → start + 1 ≤ len
      → a < 0x80
      → utf8_increment (front ++ a ∷ rest) len start value
        ≡ some (decoded ExceptionCode.none (start + 1) a)
  unfolding utf8_increment get_utf8_sequence_length decode_sequence trail_bytes sequence_value
      check_code_point get_code_point_utf8_sequence_length is_valid_code_point
  increment_one a h ha = ground (arith, get_elem?-append front (a ∷ rest) 0)

  increment_two :
      (a b v : ℕ)
      → start + 2 ≤ len
      → a / 2 ^ 5 ≡ 6
      → b / 2 ^ 6 ≡ 2
      → v ≡ a % 2 ^ 5 * 2 ^ 6 + b % 2 ^ 6
      → utf8_increment (front ++ a ∷ b ∷ rest) len start value
        ≡ some (
            decoded
              (check_code_point 2 v)
              (if passes (check_code_point 2 v) then start + 2 else start)
              v)
  unfolding utf8_increment get_utf8_sequence_length decode_sequence trail_bytes sequence_value
      is_utf8_trail_byte
  increment_two a b v h ha hb hv = ground (
    arith,
    get_elem?-append front (a ∷ b ∷ rest) 0,
    get_elem?-append front (a ∷ b ∷ rest) 1,
    value_of_two_lem a b,
  )

  increment_three :
      (a b c v : ℕ)
      → start + 3 ≤ len
      → a / 2 ^ 4 ≡ 14
      → b / 2 ^ 6 ≡ 2
      → c / 2 ^ 6 ≡ 2
      → v ≡ a % 2 ^ 4 * 2 ^ 12 + b % 2 ^ 6 * 2 ^ 6 + c % 2 ^ 6
      → utf8_increment (front ++ a ∷ b ∷ c ∷ rest) len start value
        ≡ some (
            decoded
              (check_code_point 3 v)
              (if passes (check_code_point 3 v) then start + 3 else start)
              v)
  unfolding utf8_increment get_utf8_sequence_length decode_sequence trail_bytes sequence_value
      is_utf8_trail_byte
  increment_three a b c v h ha hb hc hv = ground (
    arith,
    get_elem?-append front (a ∷ b ∷ c ∷ rest) 0,
    get_elem?-append front (a ∷ b ∷ c ∷ rest) 1,
    get_elem?-append front (a ∷ b ∷ c ∷ rest) 2,
    value_of_three_lem a b c,
  )

  increment_four :
      (a b c d v : ℕ)
      → start + 4 ≤ len
      → a < 2 ^ 8
      → a / 2 ^ 3 ≡ 30
      → b / 2 ^ 6 ≡ 2
      → c / 2 ^ 6 ≡ 2
      → d / 2 ^ 6 ≡ 2
      → v ≡ b % 2 ^ 6 * 2 ^ 12 + b % 2 ^ 6 * 2 ^ 6 + d % 2 ^ 6
      → utf8_increment (front ++ a ∷ b ∷ c ∷ d ∷ rest) len start value
        ≡ some (
            decoded
              (check_code_point 4 v)
              (if passes (check_code_point 4 v) then start + 4 else start)
              v)
  unfolding utf8_increment get_utf8_sequence_length decode_sequence trail_bytes sequence_value
      is_utf8_trail_byte
  increment_four a b c d v h hs ha hb hc hd hv = ground (
    arith,
    get_elem?-append front (a ∷ b ∷ c ∷ d ∷ rest) 0,
    get_elem?-append front (a ∷ b ∷ c ∷ d ∷ rest) 1,
    get_elem?-append front (a ∷ b ∷ c ∷ d ∷ rest) 2,
    get_elem?-append front (a ∷ b ∷ c ∷ d ∷ rest) 3,
    value_of_four_lem a b d,
  )

  -- Wherever the encoding of a valid code point below 0x10000 stands, with the length behind its
  -- end, `utf8_increment` reads the code point back and moves the offset to the end.
  pub utf8_increment-encode :
      (cp : ℕ)
      → cp < 0x10000
      → is_valid_code_point cp ≡ true
      → start + length (encode cp) ≤ len
      → utf8_increment (front ++ (encode cp ++ rest)) len start value
        ≡ some (decoded ExceptionCode.none (start + length (encode cp)) cp)
  unfolding get_code_point_utf8_sequence_length
  utf8_increment-encode cp h valid room = elim (dec_lt cp 0x80) [
    | yes p ↦ ground (arith, encode_one cp p, increment_one cp)
    | no p ↦ elim (dec_lt cp 0x800) [
      | yes q ↦ ground (
        arith,
        encode_two cp (omega arith) q,
        check_encode cp valid,
        increment_two (0xc0 + cp / 2 ^ 6) (0x80 + cp % 2 ^ 6) cp,
      )
      | no q ↦ ground (
        arith,
        encode_three cp (omega arith) h,
        check_encode cp valid,
        increment_three (0xe0 + cp / 2 ^ 12) (0x80 + cp / 2 ^ 6 % 2 ^ 6) (0x80 + cp % 2 ^ 6) cp,
      )
    ]
  ]

  -- What it makes of the encoding of a supplementary code point, at least 0x10000: it returns the
  -- value whose bits 12 to 17 and 6 to 11 are both bits 12 to 17 of the code point, if that is at
  -- least 0x10000, and refuses the sequence as overlong if it is not.
  pub utf8_increment-supplementary :
      (cp : ℕ)
      → 0x10000 ≤ cp
      → cp ≤ 0x10ffff
      → start + 4 ≤ len
      → let middle = cp / 2 ^ 12 % 2 ^ 6 in
        let wrong = middle * 2 ^ 12 + middle * 2 ^ 6 + cp % 2 ^ 6 in
        utf8_increment (front ++ (encode cp ++ rest)) len start value ≡ (
          if ltb wrong 0x10000
          then some (decoded ExceptionCode.overlong_unicode_sequence start wrong)
          else some (decoded ExceptionCode.none (start + 4) wrong))
  unfolding check_code_point get_code_point_utf8_sequence_length is_valid_code_point
  utf8_increment-supplementary cp low high room = ground (
    arith,
    encode_four cp low,
    increment_four (0xf0 + cp / 2 ^ 18) (0x80 + cp / 2 ^ 12 % 2 ^ 6) (0x80 + cp / 2 ^ 6 % 2 ^ 6)
        (0x80 + cp % 2 ^ 6)
        (cp / 2 ^ 12 % 2 ^ 6 * 2 ^ 12 + cp / 2 ^ 12 % 2 ^ 6 * 2 ^ 6 + cp % 2 ^ 6),
  )
