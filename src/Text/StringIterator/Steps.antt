-- ===== src/Text/StringIterator/Steps.antt =====
-- string_iterator.cpp: one step forwards and back.
use hologine.Base.{
  ℕ, ◌<◌, ◌≡◌, ◌^◌, inl, inr, true, Bool-cases, Option-cases, none, some, List, drop, arith,
}
use hologine.Exception.Codes.{ExceptionCode, Numbering, is_none}
use hologine.Text.Utf8.{decoded, utf8_increment}
use hologine.Text.Utf8.Decrement.{utf8_decrement-increment}
use hologine.Text.StringIterator.{String, StringIterator, increment, decrement}

-- An iterator over a string that is not empty, whose code point was decoded at its current offset.
pub record IsDecoded ⦃codes : Numbering⦄ (i : StringIterator) (s : String) (bs : List ℕ)
    : Type 0 where
  pub string_of : i.string ≡ some s
  pub characters_of : s.characters ≡ some bs
  pub valid : i.is_valid ≡ true
  pub small : (i.current_offset < 2 ^ 64) × (s.length < 2 ^ 64)
  pub reads :
      (stale : ℕ) × (utf8_increment (drop s.offset bs) s.length i.current_offset stale
        ≡ some (decoded ExceptionCode.none i.next_offset i.cached_code_point_value))

increment-lem :
    ⦃codes : Numbering⦄ (i j : StringIterator) (s : String) (bs : List ℕ)
    → IsDecoded i s bs
    → increment i ≡ some (none, j)
    → (j.string ≡ some s) × (j.is_valid ≡ true) × (j.current_offset ≡ i.next_offset)
unfolding increment
increment-lem i j s bs h e =
    elim (Option-cases
      (utf8_increment (drop s.offset bs) s.length i.next_offset i.cached_code_point_value)) [
        | inl n ↦ absurd (ground (arith, h.string_of, h.characters_of, h.valid, n, e))
        | inr (d, g) ↦ elim (Bool-cases (is_none d.exception)) [
          | inl y ↦ ground (arith, h.string_of, h.characters_of, h.valid, g, y, e)
          | inr y ↦ absurd (ground (arith, h.string_of, h.characters_of, h.valid, g, y, e))
        ]
      ]

-- Where an increment of a valid iterator over a string with characters pushes no exception, a decrement
-- brings the iterator back, with the offsets, the code point and the validity that it had before,
-- if its code point was decoded at its current offset and that offset and the length are below 2 ^
-- 64.
pub decrement-increment :
    ⦃codes : Numbering⦄ (i j : StringIterator) (s : String) (bs : List ℕ)
    → IsDecoded i s bs
    → increment i ≡ some (none, j)
    → decrement j ≡ some (none, i)
unfolding decrement
decrement-increment i j s bs h e =
    let (a, b, c) = increment-lem i j s bs h e in
    let back =
      utf8_decrement-increment (drop s.offset bs) s.length i.current_offset i.next_offset
        i.cached_code_point_value h.reads.0 j.cached_code_point_value h.small.0 h.small.1
        h.reads.1 in
    ground (arith, a, b, c, h.string_of, h.characters_of, h.valid, back)
