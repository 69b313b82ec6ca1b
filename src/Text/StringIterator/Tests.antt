-- ===== src/Text/StringIterator/Tests.antt =====
-- The theorems on string iterators at a concrete string.
use hologine.Base.{ℕ, ◌≡◌, refl, true, none, some, List, [], ◌∷◌, arith}
use hologine.Exception.Codes.{Numbering, startup}
use hologine.Text.Utf8.{is_valid_code_point}
use hologine.Text.Utf8.RoundTrip.{encode, utf8_increment-encode}
use hologine.Text.StringIterator.{String, StringIterator, increment, decrement}
use hologine.Text.StringIterator.Steps.{IsDecoded, decrement-increment}
use hologine.Text.StringIterator.Traversal.{encode_all, for_each, front_of, for_each-front_of}

instance abbrev codes : Numbering
codes = startup

abbrev bytes : List ℕ
bytes = 7 ∷ 97 ∷ 195 ∷ 177 ∷ []

-- The code points 97 and 241 behind a byte that is skipped.
abbrev two : String
two = record { address = 64; characters = some bytes; offset = 1; length = 3 }

for_each-front_of_example : for_each 3 0 two ≡ some (none, none, front_of (97 ∷ 241 ∷ []))
unfolding encode_all encode is_valid_code_point
for_each-front_of_example =
    for_each-front_of 0 two bytes (97 ∷ 241 ∷ []) [] refl refl refl (omega arith)
      (omega arith, refl, (omega arith, refl, tt))

abbrev first : StringIterator
first = record {
  string = some two;
  next_offset = 1;
  current_offset = 0;
  cached_code_point_value = 97;
  is_valid = true;
}

abbrev second : StringIterator
second = record {
  string = some two;
  next_offset = 3;
  current_offset = 1;
  cached_code_point_value = 241;
  is_valid = true;
}

first-IsDecoded : IsDecoded first two bytes
unfolding encode is_valid_code_point
first-IsDecoded = record {
  string_of = refl;
  characters_of = refl;
  valid = refl;
  small = omega arith;
  reads = (
    0,
    utf8_increment-encode [] (195 ∷ 177 ∷ []) 3 0 (omega arith) 97 (omega arith) refl (omega arith),
  );
}

increment-first : increment first ≡ some (none, second)
unfolding increment encode is_valid_code_point
increment-first =
    let step =
      utf8_increment-encode (97 ∷ []) [] 3 97 (omega arith) 241 (omega arith) refl (omega arith) in
    ground (arith, step)

decrement-increment_example : decrement second ≡ some (none, first)
decrement-increment_example =
    decrement-increment first second two bytes first-IsDecoded increment-first
