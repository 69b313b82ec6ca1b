-- ===== src/Text/StringIterator.antt =====
-- hologine/core/text/string_iterator.cpp: iterators over the code points of a string.
pub mod Steps
pub mod Traversal
mod Tests
use hologine.Base.{
  ℕ, Bool, true, false, Option, none, some, List, ◌==◌, ◌&&◌, ltb, if◌then◌else◌, ◌>>=◌, drop,
}
use hologine.Exception.Codes.{ExceptionCode, Numbering, is_none}
use hologine.Text.Utf8.{Decoded, utf8_increment, utf8_decrement}

-- What an iterator reads of a string. `characters` are the bytes that may be read at
-- `buffer->data` or at `const_string`, whichever the storage mode selects, `none` where that
-- pointer is null; the two pointers share their place in the object.
pub record String : Type 0 where
  pub address : ℕ
  pub characters : Option (List ℕ)
  pub offset : ℕ
  pub length : ℕ

-- `string` is `none` for a null pointer.
pub record StringIterator : Type 0 where
  pub string : Option String
  pub next_offset : ℕ
  pub current_offset : ℕ
  pub cached_code_point_value : ℕ
  pub is_valid : Bool

abbrev pub string_iterator_default : StringIterator
string_iterator_default = record {
  string = none;
  next_offset = 0;
  current_offset = 0;
  cached_code_point_value = 0;
  is_valid = true;
}

abbrev pub get_is_valid : StringIterator → Bool
get_is_valid i = i.is_valid

abbrev pub dereference : StringIterator → ℕ
dereference i = i.cached_code_point_value

-- An iterator behind a decoding step: the exception that is pushed, and the new state.
abbrev pub incremented :
    ⦃codes : Numbering⦄ → StringIterator → Decoded → Option ExceptionCode × StringIterator
incremented i d =
    if is_none d.exception
    then (
      none,
      record i {
        next_offset = d.offset;
        current_offset = i.next_offset;
        cached_code_point_value = d.value;
      },
    )
    else (
      some d.exception,
      record i { next_offset = d.offset; cached_code_point_value = d.value; is_valid = false },
    )

-- `none` is `terminate()`, or an access outside of the string's memory.
pub increment :
    ⦃codes : Numbering⦄ → StringIterator → Option (Option ExceptionCode × StringIterator)
increment i = elim i.string [
  | none ↦ some (none, i)
  | some s ↦
      if i.is_valid
      then elim s.characters [
        | none ↦ some (none, i)
        | some characters ↦ do
          d ←
              utf8_increment (drop s.offset characters) s.length i.next_offset
                i.cached_code_point_value
          some (incremented i d)
      ]
      else none
]

abbrev pub decremented :
    ⦃codes : Numbering⦄ → StringIterator → Decoded → Option ExceptionCode × StringIterator
decremented i d =
    if is_none d.exception
    then (
      none,
      record i {
        next_offset = i.current_offset;
        current_offset = d.offset;
        cached_code_point_value = d.value;
      },
    )
    else (
      some d.exception,
      record i { current_offset = d.offset; cached_code_point_value = d.value; is_valid = false },
    )

pub decrement :
    ⦃codes : Numbering⦄ → StringIterator → Option (Option ExceptionCode × StringIterator)
decrement i = elim i.string [
  | none ↦ some (none, i)
  | some s ↦
      if i.is_valid
      then elim s.characters [
        | none ↦ some (none, i)
        | some characters ↦ do
          d ← utf8_decrement (drop s.offset characters) i.current_offset i.cached_code_point_value
          some (decremented i d)
      ]
      else none
]

-- The second assertion of the constructor: a null pointer to characters allows the offset 0 alone.
abbrev pub is_offset_allowed : Option (List ℕ) → ℕ → Bool
is_offset_allowed none offset = offset == 0
is_offset_allowed (some characters) offset = true

-- The constructor that `begin()` and `end()` of a string call, for a string that is not null. The
-- value that `stale` stands for is what the code point holds before it is assigned; `none` is
-- a failed assertion too.
pub string_iterator :
    ⦃codes : Numbering⦄ → ℕ → String → ℕ → Option (Option ExceptionCode × StringIterator)
unfolding increment
string_iterator stale s offset =
    let start : StringIterator = record {
      string = some s;
      next_offset = offset;
      current_offset = offset;
      cached_code_point_value = stale;
      is_valid = true;
    } in
    if is_offset_allowed s.characters offset
    then (if ltb offset s.length then increment start else some (none, start))
    else none

abbrev pub same_string : Option String → Option String → Bool
same_string none none = true
same_string (some s) (some t) = s.address == t.address
same_string _ _ = false

pub equal : StringIterator → StringIterator → Bool
equal i j = same_string i.string j.string && i.next_offset == j.next_offset
