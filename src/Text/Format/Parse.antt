-- ===== src/Text/Format/Parse.antt =====
-- The conversion specifications of the C standard's `fprintf`, as a reader of format strings.
use hologine.Base.{
  ℕ, Bool, true, false, ◌||◌, ◌&&◌, ◌>>=◌, Option, none, some, List, [], ◌∷◌, ◌==◌, if◌then◌else◌,
}

-- The sizes of arguments that a length modifier tells of: `l` and `z`.
pub data Size : Type 0 where
  plain_size : Size
  long_size : Size
  size_size : Size

-- How a number is written; `upper` tells whether its letters are capitals.
pub data Meaning : Type 0 where
  signed_decimal : Meaning
  unsigned_decimal : Meaning
  octal : Meaning
  hexadecimal : Bool → Meaning
  fixed : Bool → Meaning
  scientific : Bool → Meaning
  general : Bool → Meaning

-- What the C standard says of a conversion character.
abbrev pub meaning : ℕ → Option Meaning
meaning c =
    if c == b'd' || c == b'i'
    then some signed_decimal
    else if c == b'u'
    then some unsigned_decimal
    else if c == b'o'
    then some octal
    else if c == b'x' || c == b'X'
    then some (hexadecimal (c == b'X'))
    else if c == b'f' || c == b'F'
    then some (fixed (c == b'F'))
    else if c == b'e' || c == b'E'
    then some (scientific (c == b'E'))
    else if c == b'g' || c == b'G'
    then some (general (c == b'G'))
    else none

abbrev pub is_decimal : Meaning → Bool
is_decimal signed_decimal = true
is_decimal unsigned_decimal = true
is_decimal octal = false
is_decimal (hexadecimal u) = false
is_decimal (fixed u) = false
is_decimal (scientific u) = false
is_decimal (general u) = false

-- `width` and `precision` tell whether these are taken from the arguments.
pub record Specification : Type 0 where
  pub left : Bool
  pub sign : Bool
  pub special : Bool
  pub zeroes : Bool
  pub width : Bool
  pub precision : Bool
  pub size : Size
  pub conversion : Meaning

abbrev pub plain : Specification
plain = record {
  left = false;
  sign = false;
  special = false;
  zeroes = false;
  width = false;
  precision = false;
  size = plain_size;
  conversion = signed_decimal;
}

abbrev pub is_flag : ℕ → Bool
is_flag c = c == b'-' || (c == b'+' || (c == b'#' || c == b'0'))

abbrev pub marked : ℕ → Specification → Specification
marked c s = record s {
  left = c == b'-' || s.left;
  sign = c == b'+' || s.sign;
  special = c == b'#' || s.special;
  zeroes = c == b'0' || s.zeroes;
}

-- The flags, in any order, and what follows them.
unfoldable pub parse_flags : List ℕ → Specification → Specification × List ℕ
parse_flags [] s = (s, [])
parse_flags (c ∷ cs) s = elim (is_flag c) [
  | true ↦ parse_flags cs (marked c s)
  | false ↦ (s, c ∷ cs)
]

abbrev pub parse_width : List ℕ → Specification → Specification × List ℕ
parse_width [] s = (s, [])
parse_width (c ∷ cs) s = if c == b'*' then (record s { width = true }, cs) else (s, c ∷ cs)

-- Behind a point, the precision; only one that is an argument is read.
abbrev pub parse_precision : List ℕ → Specification → Specification × List ℕ
parse_precision (c ∷ d ∷ cs) s =
    if c == b'.'
    then (if d == b'*' then (record s { precision = true }, cs) else (s, c ∷ d ∷ cs))
    else (s, c ∷ d ∷ cs)
parse_precision cs s = (s, cs)

abbrev pub parse_modifier : List ℕ → Specification → Specification × List ℕ
parse_modifier [] s = (s, [])
parse_modifier (c ∷ cs) s =
    if c == b'l'
    then (record s { size = long_size }, cs)
    else if c == b'z'
    then (record s { size = size_size }, cs)
    else (s, c ∷ cs)

-- One conversion character and the end of the string. With the flag `#`, the decimal conversions are
-- undefined.
abbrev pub parse_conversion : List ℕ → Specification → Option Specification
parse_conversion (c ∷ z ∷ []) s =
    if z == 0
    then (do
      m ← meaning c
      if s.special && is_decimal m then none else some (record s { conversion = m }))
    else none
parse_conversion cs s = none

abbrev pub parse_fields : Specification × List ℕ → Option Specification
parse_fields (s, cs) =
    let (s₁, cs₁) = parse_width cs s in
    let (s₂, cs₂) = parse_precision cs₁ s₁ in
    let (s₃, cs₃) = parse_modifier cs₂ s₂ in parse_conversion cs₃ s₃

unfoldable pub parse : List ℕ → Option Specification
unfolding parse_flags
parse [] = none
parse (c ∷ cs) = if c == b'%' then parse_fields (parse_flags cs plain) else none
