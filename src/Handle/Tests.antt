-- ===== src/Handle/Tests.antt =====
-- The theorem on handles at a concrete definition.
use hologine.Base.{◌+◌, ◌*◌, ◌%◌, ◌^◌, ◌≡◌, true, arith}
use hologine.Handle.{HandleDefinition, encode, is_type, decode_index, decode_scope, decode_age}
use hologine.Handle.Fields.{decode-encode}

abbrev small : HandleDefinition
small = record { type = 3; age = 20; scope = 8; index = 28 }

decode-encode_example :
    (is_type small (encode small 7 5 100) ≡ true)
    × (decode_index small (encode small 7 5 100) ≡ 5 % 2 * 2 ^ 28 + 100)
    × (decode_scope small (encode small 7 5 100) ≡ 7 % 2 * 2 ^ 8 + 5)
    × (decode_age small (encode small 7 5 100) ≡ 3 % 2 * 2 ^ 20 + 7)
decode-encode_example =
    decode-encode small 7 5 100
      (record {
        type = omega arith;
        age = omega arith;
        scope = omega arith;
        index = omega arith;
        total = omega arith;
      })
      (record { age_fits = omega arith; scope_fits = omega arith; index_fits = omega arith })
