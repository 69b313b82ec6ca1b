-- ===== src/Text/Utf8.antt =====
-- hologine/core/text/utf8.cpp and unicode.cpp: stepping over UTF-8 sequences in a byte buffer.
-- The buffer is the list of the bytes that may be read from `string` on; a read outside of it is a
-- fault, `none`. A function that assigns `offset` and `value` returns them beside its code.
pub mod Bounds
mod Values
pub mod RoundTrip
pub mod Decrement
mod Tests
use hologine.Base.{
  ℕ, zero, suc, ◌+◌, ◌-◌, ◌*◌, ◌/◌, ◌%◌, ◌^◌, Bool, true, false, not, ◌&&◌, Option, some, List,
  bit_and, bit_or, ltb, leb, ◌==◌, if◌then◌else◌, ◌>>=◌, get_elem?,
}
use hologine.Exception.Codes.{ExceptionCode, Numbering, is_none, passes}

-- What `utf8_increment` and `utf8_decrement` return, with the references that they assign.
pub record Decoded : Type 0 where
  pub exception : ExceptionCode
  pub offset : ℕ
  pub value : ℕ

abbrev pub decoded : ExceptionCode → ℕ → ℕ → Decoded
decoded e o v = record { exception = e; offset = o; value = v }

-- `size_t` addition
abbrev pub add_size : ℕ → ℕ → ℕ
add_size a b = (a + b) % 2 ^ 64

pub is_utf8_trail_byte : ℕ → Bool
is_utf8_trail_byte c = c / 2 ^ 6 == 2

-- The code, and the length that is assigned.
pub get_utf8_sequence_length : ℕ → ExceptionCode × ℕ
get_utf8_sequence_length lead =
    if ltb lead 0x80
    then (ExceptionCode.none, 1)
    else if lead / 2 ^ 5 == 0x06
    then (ExceptionCode.none, 2)
    else if lead / 2 ^ 4 == 0x0e
    then (ExceptionCode.none, 3)
    else if lead / 2 ^ 3 == 0x1e
    then (ExceptionCode.none, 4)
    else (ExceptionCode.invalid_unicode_lead, 0)

pub get_code_point_utf8_sequence_length : ℕ → ℕ
get_code_point_utf8_sequence_length code_point =
    if ltb code_point 0x80
    then 1
    else if ltb code_point 0x800
    then 2
    else if ltb code_point 0x10000
    then 3
    else 4

unfoldable pub is_valid_code_point : ℕ → Bool
is_valid_code_point code_point =
    leb code_point 0x0010ffff && not (leb 0xd800 code_point && leb code_point 0xdfff)

-- The loop over the trailing bytes: `count` of them are left to be looked at, the next at `at`.
-- The caller has made sure that the sequence ends before the offset could wrap.
pub trail_bytes : List ℕ → ℕ → ℕ → Option Bool
trail_bytes string at zero = some true
trail_bytes string at (suc count) = do
  byte ← get_elem? string at
  if is_utf8_trail_byte byte then trail_bytes string (at + 1) count else some false

-- The branches of the switch on the sequence length. In the last one `<<` binds tighter than `&`,
-- so the lead byte meets the mask 0x07 << 18, and the second byte is read twice.
pub value_of_two : ℕ → ℕ → ℕ
value_of_two lead second = bit_or (bit_and lead 0x1f * 2 ^ 6) (bit_and second 0x3f)

pub value_of_three : ℕ → ℕ → ℕ → ℕ
value_of_three lead second third =
    bit_or (bit_or (bit_and lead 0x0f * 2 ^ 12) (bit_and second 0x3f * 2 ^ 6)) (bit_and third 0x3f)

pub value_of_four : ℕ → ℕ → ℕ → ℕ
value_of_four lead second fourth =
    bit_or
      (bit_or (bit_or (bit_and lead (0x07 * 2 ^ 18)) (bit_and second 0x3f * 2 ^ 12))
        (bit_and second 0x3f * 2 ^ 6))
      (bit_and fourth 0x3f)

pub sequence_value : List ℕ → ℕ → ℕ → Option ℕ
sequence_value string offset sequence_length = do
  lead ← get_elem? string offset
  if sequence_length == 1 then some lead else do
    second ← get_elem? string (offset + 1)
    if sequence_length == 2
        then some (value_of_two lead second)
        else if sequence_length == 3
        then (do third ← get_elem? string (offset + 2); some (value_of_three lead second third))
        else do fourth ← get_elem? string (offset + 3); some (value_of_four lead second fourth)

-- The checks on an assembled code point: the code that they return.
pub check_code_point : ℕ → ℕ → ExceptionCode
check_code_point sequence_length value =
    if not (get_code_point_utf8_sequence_length value == sequence_length)
    then ExceptionCode.overlong_unicode_sequence
    else if not (is_valid_code_point value)
    then ExceptionCode.invalid_unicode_lead
    else ExceptionCode.none

-- The body behind the bounds test: the code, and the value that is assigned.
pub decode_sequence : List ℕ → ℕ → ℕ → ℕ → Option (ExceptionCode × ℕ)
decode_sequence string offset sequence_length value = do
  complete ← trail_bytes string (offset + 1) (sequence_length - 1)
  if complete
      then (do
        new_value ← sequence_value string offset sequence_length
        some (check_code_point sequence_length new_value, new_value))
      else some (ExceptionCode.incomplete_unicode_sequence, value)

pub utf8_increment : ⦃codes : Numbering⦄ → List ℕ → ℕ → ℕ → ℕ → Option Decoded
utf8_increment string length offset value = do
  lead ← get_elem? string offset
  let (exception, sequence_length) = get_utf8_sequence_length lead
  let new_offset = add_size offset sequence_length
  if is_none exception
      then (if leb new_offset length && ltb offset new_offset
          then (do
            (code, new_value) ← decode_sequence string offset sequence_length value
            some (decoded code (if passes code then new_offset else offset) new_value))
          else some (decoded ExceptionCode.index_out_of_range offset value))
      else some (decoded exception offset value)

-- The do-while loop of `utf8_decrement`: where it stops, from a `current_offset` that is not 0.
pub previous_lead : List ℕ → ℕ → Option ℕ
previous_lead string zero = some zero
previous_lead string (suc current) = if current == 0 then some 0 else do
  byte ← get_elem? string current
  if is_utf8_trail_byte byte then previous_lead string current else some current

pub utf8_decrement : ⦃codes : Numbering⦄ → List ℕ → ℕ → ℕ → Option Decoded
utf8_decrement string offset value =
    if offset == 0 then some (decoded ExceptionCode.index_out_of_range offset value) else do
      current_offset ← previous_lead string offset
      result ← utf8_increment string offset current_offset value
      some (
          decoded result.exception (if is_none result.exception then current_offset else offset)
            result.value)
