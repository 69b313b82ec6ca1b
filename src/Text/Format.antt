-- ===== src/Text/Format.antt =====
-- hologine/core/text/format.hpp: numbers as text, by a format string for `snprintf`.
pub mod Parse
pub mod Specifiers
pub mod Append
mod Tests
use hologine.Base.{
  ℕ, ◌+◌, ◌%◌, ◌^◌, Bool, true, false, not, Option, none, some, List, [], ◌∷◌, ◌++◌, length, ◌==◌,
  leb, if◌then◌else◌, ◌>>=◌, bit_and,
}
use hologine.Text.StringBuilder.{StringBuilder, request_buffer, write_buffer}

abbrev pub numeric_force_sign : ℕ
numeric_force_sign = 0x1

abbrev pub numeric_force_special : ℕ
numeric_force_special = 0x2

abbrev pub pad_zeroes : ℕ
pad_zeroes = 0x1

abbrev pub align_left : ℕ
align_left = 0x1

abbrev pub case_upper : ℕ
case_upper = 0x1

abbrev pub integer_signed : ℕ
integer_signed = 0

abbrev pub integer_unsigned : ℕ
integer_unsigned = 1

abbrev pub integer_unsigned_octal : ℕ
integer_unsigned_octal = 2

abbrev pub integer_unsigned_hexadecimal : ℕ
integer_unsigned_hexadecimal = 3

-- The types that have a length specifier.
pub data Integer : Type 0 where
  int : Integer
  unsigned_int : Integer
  long_int : Integer
  long_unsigned_int : Integer
  size_type : Integer

abbrev pub length_specifier : Integer → List ℕ
length_specifier int = []
length_specifier unsigned_int = []
length_specifier long_int = b'l' ∷ []
length_specifier long_unsigned_int = b'l' ∷ []
length_specifier size_type = b'z' ∷ []

abbrev pub maximum_format_string_length : ℕ
maximum_format_string_length = 16

abbrev pub has : ℕ → ℕ → Bool
has flags flag = not (bit_and flags flag == 0)

abbrev pub put_if : Bool → ℕ → List ℕ
put_if b c = if b then c ∷ [] else []

-- What both constructors put behind the percent sign.
pub put_flags : ℕ → ℕ → ℕ → List ℕ
put_flags numeric_flags pad_flags align_flags =
    put_if (has align_flags align_left) b'-'
    ++ (put_if (has numeric_flags numeric_force_sign) b'+'
        ++ (put_if (has numeric_flags numeric_force_special) b'#'
            ++ put_if (has pad_flags pad_zeroes) b'0'))

abbrev pub integer_conversion : ℕ → ℕ → ℕ
integer_conversion mode case_flags =
    if mode == integer_unsigned
    then b'u'
    else if mode == integer_unsigned_octal
    then b'o'
    else if mode == integer_unsigned_hexadecimal
    then (if has case_flags case_upper then b'X' else b'x')
    else b'd'

-- The format string of the constructor `integer`, with its zero byte.
pub integer : Integer → ℕ → ℕ → ℕ → ℕ → ℕ → List ℕ
unfolding put_flags
integer type mode numeric_flags pad_flags align_flags case_flags =
    b'%'
    ∷ (put_flags numeric_flags pad_flags align_flags
        ++ (b'*' ∷ (length_specifier type ++ (integer_conversion mode case_flags ∷ 0 ∷ []))))

abbrev pub floating_point_conversion : ℕ → ℕ → ℕ
floating_point_conversion mode case_flags =
    if mode == integer_unsigned
    then (if has case_flags case_upper then b'E' else b'e')
    else if mode == integer_unsigned_octal
    then (if has case_flags case_upper then b'G' else b'g')
    else if has case_flags case_upper
    then b'F'
    else b'f'

-- The format string of the constructor `floating_point`, with its zero byte.
pub floating_point : ℕ → ℕ → ℕ → ℕ → ℕ → List ℕ
unfolding put_flags
floating_point mode numeric_flags pad_flags align_flags case_flags =
    b'%'
    ∷ (put_flags numeric_flags pad_flags align_flags
        ++ (b'.' ∷ b'*' ∷ floating_point_conversion mode case_flags ∷ 0 ∷ []))

-- `append_format` behind the request: the second call fills the buffer and ends it with a zero byte.
abbrev pub printed : ℕ → List ℕ → StringBuilder → Option (Bool × StringBuilder)
printed buffer text b =
    if buffer == 0
    then some (false, b)
    else (do b' ← write_buffer buffer (text ++ (0 ∷ [])) b; some (true, b'))

-- `print` is what `snprintf` prints by a format string, for the width and the value; `none` is an
-- error.
pub append_format :
    (List ℕ → Option (List ℕ))
    → (ℕ → ℕ)
    → List ℕ
    → List ℕ
    → StringBuilder
    → Option (Bool × StringBuilder)
append_format print answer stale format_string builder = elim (print format_string) [
  | none ↦ some (false, builder)
  | some text ↦ if length text == 0 then some (false, builder) else (do
    (buffer, b) ← request_buffer answer stale (length text + 1) builder
    printed buffer text b)
]
