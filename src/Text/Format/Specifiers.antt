-- ===== src/Text/Format/Specifiers.antt =====
-- format.hpp: the format strings that the constructors build.
use hologine.Base.{
  ℕ, zero, suc, Bool-cases, inl, inr, ◌≡◌, refl, ◌∙◌, ap, ◌≤◌, Bool, true, false, ◌||◌, ◌&&◌, some,
  List, [], ◌∷◌, ◌++◌, length, ◌==◌, arith, length-append,
}
use hologine.Text.Format.{
  Integer, int, unsigned_int, long_int, long_unsigned_int, size_type, length_specifier, has, put_if,
  put_flags, integer, integer_conversion, floating_point, floating_point_conversion, case_upper,
  numeric_force_sign, numeric_force_special, pad_zeroes, align_left, maximum_format_string_length,
}
use hologine.Text.Format.Parse.{
  Size, plain_size, long_size, size_size, Meaning, signed_decimal, unsigned_decimal, octal,
  hexadecimal, fixed, scientific, general, meaning, is_decimal, Specification, plain, is_flag,
  parse_flags, parse_fields, parse,
}

-- What flags ask for, as a specification.
abbrev pub asked : ℕ → ℕ → ℕ → Specification
asked numeric_flags pad_flags align_flags = record plain {
  left = has align_flags align_left;
  sign = has numeric_flags numeric_force_sign;
  special = has numeric_flags numeric_force_special;
  zeroes = has pad_flags pad_zeroes;
}

-- A character that is no flag ends the flags.
stop :
    (x : ℕ) (cs : List ℕ) (s : Specification)
    → is_flag x ≡ false
    → parse_flags (x ∷ cs) s ≡ (s, x ∷ cs)
unfolding parse_flags
stop x cs s h = ground (arith, h)

-- The last two flags, behind the first two.
special_flags-parse :
    (a b c d : Bool) (x : ℕ) (cs : List ℕ)
    → is_flag x ≡ false
    → parse_flags
        ((put_if c b'#' ++ put_if d b'0') ++ (x ∷ cs))
        (record plain { left = a; sign = b })
      ≡ (record plain { left = a; sign = b; special = c; zeroes = d }, x ∷ cs)
unfolding parse_flags
special_flags-parse a b false false x cs h = stop x cs _ h
special_flags-parse a b false true x cs h = stop x cs _ h
special_flags-parse a b true false x cs h = stop x cs _ h
special_flags-parse a b true true x cs h = stop x cs _ h

flags-parse :
    (a b c d : Bool) (x : ℕ) (cs : List ℕ)
    → is_flag x ≡ false
    → parse_flags
        ((put_if a b'-' ++ (put_if b b'+' ++ (put_if c b'#' ++ put_if d b'0'))) ++ (x ∷ cs))
        plain
      ≡ (record plain { left = a; sign = b; special = c; zeroes = d }, x ∷ cs)
unfolding parse_flags
flags-parse false false c d x cs h = special_flags-parse false false c d x cs h
flags-parse false true c d x cs h = special_flags-parse false true c d x cs h
flags-parse true false c d x cs h = special_flags-parse true false c d x cs h
flags-parse true true c d x cs h = special_flags-parse true true c d x cs h

-- The size and the notation that a type and a mode stand for.
abbrev pub argument_size : Integer → Size
argument_size int = plain_size
argument_size unsigned_int = plain_size
argument_size long_int = long_size
argument_size long_unsigned_int = long_size
argument_size size_type = size_size

abbrev pub integer_meaning : ℕ → ℕ → Meaning
integer_meaning zero case_flags = signed_decimal
integer_meaning (suc zero) case_flags = unsigned_decimal
integer_meaning (suc (suc zero)) case_flags = octal
integer_meaning (suc (suc (suc zero))) case_flags = hexadecimal (has case_flags case_upper)
integer_meaning (suc (suc (suc (suc mode)))) case_flags = signed_decimal

-- A conversion that follows the width at once.
fields-conversion :
    (s : Specification) (c : ℕ) (m : Meaning)
    → (c == b'l' || c == b'z') ≡ false
    → meaning c ≡ some m
    → (s.special && is_decimal m) ≡ false
    → parse_fields (s, b'*' ∷ c ∷ 0 ∷ []) ≡ some (record s { width = true; conversion = m })
fields-conversion s c m h e f =
    let l : (c == b'l') ≡ false = ground (arith, h) in
    let z : (c == b'z') ≡ false = ground (arith, h) in
    elim (Bool-cases (c == b'.')) [
      | inl p ↦ rw (p, l, z, e, f) refl
      | inr p ↦ rw (p, l, z, e, f) refl
    ]

-- Behind the flags of an integer: the width, the modifier and the conversion.
fields-integer :
    (n p a : ℕ) (type : Integer) (c : ℕ) (m : Meaning)
    → (c == b'l' || c == b'z') ≡ false
    → meaning c ≡ some m
    → (has n numeric_force_special && is_decimal m) ≡ false
    → let s = asked n p a in
      parse_fields (s, b'*' ∷ (length_specifier type ++ (c ∷ 0 ∷ [])))
      ≡ some (record s { width = true; size = argument_size type; conversion = m })
fields-integer n p a int c m h e f = fields-conversion (asked n p a) c m h e f
fields-integer n p a unsigned_int c m h e f = fields-conversion (asked n p a) c m h e f
fields-integer n p a long_int c m h e f = rw (e, f) refl
fields-integer n p a long_unsigned_int c m h e f = rw (e, f) refl
fields-integer n p a size_type c m h e f = rw (e, f) refl

integer_conversion_plain :
    (mode case_flags : ℕ)
    → (integer_conversion mode case_flags == b'l' || integer_conversion mode case_flags == b'z')
      ≡ false
integer_conversion_plain mode case_flags = ground arith

meaning-integer_conversion :
    (mode case_flags : ℕ)
    → meaning (integer_conversion mode case_flags) ≡ some (integer_meaning mode case_flags)
meaning-integer_conversion zero case_flags = refl
meaning-integer_conversion (suc zero) case_flags = refl
meaning-integer_conversion (suc (suc zero)) case_flags = refl
meaning-integer_conversion (suc (suc (suc zero))) case_flags =
    elim (Bool-cases (has case_flags case_upper)) [ inl y ↦ rw y refl | inr n ↦ rw n refl ]
meaning-integer_conversion (suc (suc (suc (suc mode)))) case_flags = ground arith

-- The format string of an integer is one conversion specification of the C standard: it has the
-- flags that were asked for, its width is an argument, and it converts an argument of the type's
-- size in the notation of the mode (unsigned, octal, hexadecimal in the case asked for, signed
-- decimal in any other mode). That is so unless the special form of a decimal number is asked for,
-- which the standard leaves undefined.
pub parse-integer :
    (type : Integer) (mode numeric_flags pad_flags align_flags case_flags : ℕ)
    → (has numeric_flags numeric_force_special && is_decimal (integer_meaning mode case_flags))
      ≡ false
    → parse (integer type mode numeric_flags pad_flags align_flags case_flags)
      ≡ some (record (asked numeric_flags pad_flags align_flags) {
        width = true;
        size = argument_size type;
        conversion = integer_meaning mode case_flags;
      })
unfolding parse integer put_flags
parse-integer type mode numeric_flags pad_flags align_flags case_flags defined =
    let c = integer_conversion mode case_flags in
    ap parse_fields (
      flags-parse (has align_flags align_left) (has numeric_flags numeric_force_sign)
        (has numeric_flags numeric_force_special) (has pad_flags pad_zeroes) b'*'
        (length_specifier type ++ (c ∷ 0 ∷ [])) refl)
    ∙ fields-integer numeric_flags pad_flags align_flags type c (integer_meaning mode case_flags)
        (integer_conversion_plain mode case_flags) (meaning-integer_conversion mode case_flags)
        defined

abbrev pub floating_point_meaning : ℕ → ℕ → Meaning
floating_point_meaning zero case_flags = fixed (has case_flags case_upper)
floating_point_meaning (suc zero) case_flags = scientific (has case_flags case_upper)
floating_point_meaning (suc (suc zero)) case_flags = general (has case_flags case_upper)
floating_point_meaning (suc (suc (suc mode))) case_flags = fixed (has case_flags case_upper)

floating_point_conversion_plain :
    (mode case_flags : ℕ)
    → (floating_point_conversion mode case_flags == b'l'
        || floating_point_conversion mode case_flags == b'z')
      ≡ false
floating_point_conversion_plain mode case_flags = ground arith

-- The conversion of a floating point number is never one of the decimal ones.
meaning-floating_point_conversion :
    (mode case_flags : ℕ)
    → (meaning (floating_point_conversion mode case_flags)
        ≡ some (floating_point_meaning mode case_flags))
      × (is_decimal (floating_point_meaning mode case_flags) ≡ false)
meaning-floating_point_conversion zero case_flags = elim (Bool-cases (has case_flags case_upper)) [
  | inl y ↦ rw y (refl, refl)
  | inr n ↦ rw n (refl, refl)
]
meaning-floating_point_conversion (suc zero) case_flags =
    elim (Bool-cases (has case_flags case_upper)) [
      | inl y ↦ rw y (refl, refl)
      | inr n ↦ rw n (refl, refl)
    ]
meaning-floating_point_conversion (suc (suc zero)) case_flags =
    elim (Bool-cases (has case_flags case_upper)) [
      | inl y ↦ rw y (refl, refl)
      | inr n ↦ rw n (refl, refl)
    ]
meaning-floating_point_conversion (suc (suc (suc mode))) case_flags =
    elim (Bool-cases (has case_flags case_upper)) [
      | inl y ↦ (ground (arith, y), refl)
      | inr n ↦ (ground (arith, n), refl)
    ]

fields-floating_point :
    (s : Specification) (c : ℕ) (m : Meaning)
    → (c == b'l' || c == b'z') ≡ false
    → meaning c ≡ some m
    → is_decimal m ≡ false
    → parse_fields (s, b'.' ∷ b'*' ∷ c ∷ 0 ∷ [])
      ≡ some (record s { precision = true; conversion = m })
fields-floating_point s c m h e f = ground (arith, h, e, f)

-- The format string of a floating point number is one conversion specification of the C standard: it
-- has the flags that were asked for and no width; the argument that the constructor calls the width
-- is the precision.
parse-floating_point :
    (mode numeric_flags pad_flags align_flags case_flags : ℕ)
    → parse (floating_point mode numeric_flags pad_flags align_flags case_flags)
      ≡ some (record (asked numeric_flags pad_flags align_flags) {
        precision = true;
        conversion = floating_point_meaning mode case_flags;
      })
unfolding parse floating_point put_flags
parse-floating_point mode numeric_flags pad_flags align_flags case_flags =
    let c = floating_point_conversion mode case_flags in
    let (e, f) = meaning-floating_point_conversion mode case_flags in
    ap parse_fields (
      flags-parse (has align_flags align_left) (has numeric_flags numeric_force_sign)
        (has numeric_flags numeric_force_special) (has pad_flags pad_zeroes) b'.'
        (b'*' ∷ c ∷ 0 ∷ []) refl)
    ∙ fields-floating_point (asked numeric_flags pad_flags align_flags) c
        (floating_point_meaning mode case_flags) (floating_point_conversion_plain mode case_flags) e
        f

length-put_if : (b : Bool) (c : ℕ) (cs : List ℕ) → length (put_if b c ++ cs) ≤ suc (length cs)
length-put_if true c cs = omega arith
length-put_if false c cs = omega arith

length-put_flags : (n p a : ℕ) → length (put_flags n p a) ≤ 4
unfolding put_flags
length-put_flags n p a = ground arith

length-length_specifier : (type : Integer) → length (length_specifier type) ≤ 1
length-length_specifier int = omega arith
length-length_specifier unsigned_int = omega arith
length-length_specifier long_int = omega arith
length-length_specifier long_unsigned_int = omega arith
length-length_specifier size_type = omega arith

-- The format strings fit, with their zero byte, into the arrays of the objects.
pub format_string-fits :
    (type : Integer) (mode numeric_flags pad_flags align_flags case_flags : ℕ)
    → (length (integer type mode numeric_flags pad_flags align_flags case_flags)
        ≤ maximum_format_string_length)
      × (length (floating_point mode numeric_flags pad_flags align_flags case_flags)
          ≤ maximum_format_string_length)
unfolding integer floating_point
format_string-fits type mode n p a case_flags =
    let flags = put_flags n p a in
    let c = integer_conversion mode case_flags in
    let d = floating_point_conversion mode case_flags in
    let few = length-put_flags n p a in
    (
      omega (
        arith,
        few,
        length-append flags (b'*' ∷ (length_specifier type ++ (c ∷ 0 ∷ []))),
        length-append (length_specifier type) (c ∷ 0 ∷ []),
        length-length_specifier type,
      ),
      omega (arith, few, length-append flags (b'.' ∷ b'*' ∷ d ∷ 0 ∷ [])),
    )
