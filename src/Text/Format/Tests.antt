-- ===== src/Text/Format/Tests.antt =====
-- Runs of hologine/core/text/format.hpp.
use hologine.Base.{ℕ, ◌≡◌, refl, ◌≤◌, inl, true, Option, some, List, [], ◌∷◌, length, arith}
use hologine.Text.Format.{
  long_int, integer, floating_point, integer_unsigned, integer_unsigned_hexadecimal,
  maximum_format_string_length, append_format, put_flags,
}
use hologine.Text.Format.Parse.{parse, long_size, hexadecimal}
use hologine.Text.Format.Specifiers.{asked, parse-integer, format_string-fits}
use hologine.Text.Format.Append.{append_format-IsBuilt}
use hologine.Text.StringBuilder.{StringBuilder, string_builder}
use hologine.Text.StringBuilder.Chain.{IsBuilt}

-- "%+#0*lX"
integer_runs :
    integer long_int integer_unsigned_hexadecimal 3 1 0 1
    ≡ b'%' ∷ b'+' ∷ b'#' ∷ b'0' ∷ b'*' ∷ b'l' ∷ b'X' ∷ 0 ∷ []
unfolding integer put_flags
integer_runs = refl

parse-integer_example :
    parse (integer long_int integer_unsigned_hexadecimal 3 1 0 1)
    ≡ some (record (asked 3 1 0) { width = true; size = long_size; conversion = hexadecimal true })
parse-integer_example = parse-integer long_int integer_unsigned_hexadecimal 3 1 0 1 refl

format_string-fits_example :
    (length (integer long_int integer_unsigned 3 1 1 0) ≤ maximum_format_string_length)
    × (length (floating_point integer_unsigned 3 1 1 0) ≤ maximum_format_string_length)
format_string-fits_example = format_string-fits long_int integer_unsigned 3 1 1 0

abbrev print : List ℕ → Option (List ℕ)
print format_string = some (b'4' ∷ b'2' ∷ [])

append_format-IsBuilt_example :
    (b' : StringBuilder) × (append_format print
        (λ n. 400)
        (7 ∷ 7 ∷ 7 ∷ [])
        []
        (string_builder 0 true)
      ≡ some (true, b'))
    × IsBuilt b' ((400, b'4' ∷ b'2' ∷ 0 ∷ []) ∷ [])
append_format-IsBuilt_example =
    append_format-IsBuilt print (λ n. 400) (7 ∷ 7 ∷ 7 ∷ []) (b'4' ∷ b'2' ∷ []) []
      (string_builder 0 true) [] 400 refl (omega arith) refl (omega arith) refl refl
      (inl (refl, refl, refl))
