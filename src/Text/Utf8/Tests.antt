-- ===== src/Text/Utf8/Tests.antt =====
-- Runs of the functions of utf8.cpp, and its theorems at concrete buffers.
use hologine.Base.{ℕ, ◌≡◌, refl, some, List, [], ◌∷◌, ◌++◌, arith}
use hologine.Exception.Codes.{ExceptionCode, Numbering, startup}
use hologine.Text.Utf8.{
  Decoded, decoded, is_utf8_trail_byte, get_utf8_sequence_length, is_valid_code_point,
  get_code_point_utf8_sequence_length, trail_bytes, value_of_three, sequence_value,
  check_code_point, decode_sequence, utf8_increment, utf8_decrement,
}
use hologine.Text.Utf8.Bounds.{Stepped, utf8_increment-Stepped}
use hologine.Text.Utf8.RoundTrip.{encode, utf8_increment-encode, utf8_increment-supplementary}
use hologine.Text.Utf8.Decrement.{utf8_decrement-increment}

instance abbrev codes : Numbering
codes = startup

-- "a", U+00E9, U+20AC and "b"
abbrev text : List ℕ
text = 0x61 ∷ 0xc3 ∷ 0xa9 ∷ 0xe2 ∷ 0x82 ∷ 0xac ∷ 0x62 ∷ []

increment_euro : utf8_increment text 7 3 0 ≡ some (decoded ExceptionCode.none 6 0x20ac)
unfolding utf8_increment get_utf8_sequence_length decode_sequence trail_bytes sequence_value
    is_utf8_trail_byte value_of_three check_code_point get_code_point_utf8_sequence_length
    is_valid_code_point
increment_euro = refl

utf8_increment-Stepped_example :
    (d : Decoded) × (utf8_increment text 7 3 0 ≡ some d) × Stepped 7 3 d
utf8_increment-Stepped_example =
    utf8_increment-Stepped text 7 3 0 (omega arith) (omega arith) (omega arith)

utf8_increment-encode_example :
    utf8_increment ((0x61 ∷ []) ++ (encode 0x20ac ++ [])) 4 1 0
    ≡ some (decoded ExceptionCode.none 4 0x20ac)
unfolding encode is_valid_code_point
utf8_increment-encode_example =
    utf8_increment-encode (0x61 ∷ []) [] 4 0 (omega arith) 0x20ac (omega arith) refl (omega arith)

-- U+1F600 comes back as U+1F7C0.
utf8_increment-supplementary_example :
    utf8_increment ([] ++ (encode 0x1f600 ++ [])) 4 0 0
    ≡ some (decoded ExceptionCode.none 4 0x1f7c0)
utf8_increment-supplementary_example =
    utf8_increment-supplementary [] [] 4 0 (omega arith) 0x1f600 (omega arith) (omega arith)
      (omega arith)

utf8_decrement-increment_example :
    utf8_decrement text 6 7 ≡ some (decoded ExceptionCode.none 3 0x20ac)
utf8_decrement-increment_example =
    utf8_decrement-increment text 7 3 6 0x20ac 0 7 (omega arith) (omega arith) increment_euro
