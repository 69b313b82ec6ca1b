-- ===== src/Text/String.antt =====
-- hologine/core/text/string.hpp and string.cpp: strings, which share buffers or refer to C strings.
pub mod Buffers
pub mod Counts
pub mod Release
pub mod Owners
pub mod Runs
pub mod Reachable
pub mod Contents
pub mod Substrings
pub mod Duplicates
mod Tests
use hologine.Base.{
  ℕ, zero, suc, ◌+◌, ◌-◌, ◌%◌, ◌^◌, Bool, true, false, not, ◌&&◌, ◌||◌, Option, none, some, List,
  [], ◌∷◌, length, take, drop, ◌==◌, ltb, if◌then◌else◌, ◌>>=◌,
}
use hologine.Exception.Codes.{Numbering, ExceptionCode}
use hologine.Text.StringIterator.{StringIterator, string_iterator}
use hologine.Text.StringIterator as Iterator
use hologine.Text.String.Buffers.{
  Heap, c_string, reference_buffer, dereference_buffer, construct_buffer,
}

abbrev pub storage_managed : ℕ
storage_managed = 0

abbrev pub storage_unmanaged : ℕ
storage_unmanaged = 1

-- `pointer` is the union: `buffer` of a managed string, `const_string` of an unmanaged one.
pub record String : Type 0 where
  pub storage_mode : ℕ
  pub pointer : ℕ
  pub offset : ℕ
  pub length : ℕ

abbrev pub string_default : String
string_default = record { storage_mode = storage_unmanaged; pointer = 0; offset = 0; length = 0 }

-- `string(const char*)`
pub string_unmanaged : ℕ → Heap → Option String
unfolding c_string
string_unmanaged p h = do
  bytes ← h.memory p
  s ← c_string bytes
  some (record { storage_mode = storage_unmanaged; pointer = p; offset = 0; length = length s })

-- `string(allocator*, const char*)`: the length is read through the buffer, also where it is null.
pub string_managed : ℕ → ℕ → ℕ → ℕ → Heap → Option (String × Heap)
unfolding c_string construct_buffer
string_managed object block allocator other h = do
  bytes ← h.memory other
  s ← c_string bytes
  let made = construct_buffer object block allocator s h
  b ← made.1.buffers made.0
  some (
    record { storage_mode = storage_managed; pointer = made.0; offset = 0; length = b.length },
    made.1,
  )

-- The range constructor, which assigns no storage mode: `stale` is what the member holds.
pub string_range : ℕ → ℕ → ℕ → ℕ → List ℕ → Heap → Option (String × Heap)
unfolding construct_buffer
string_range stale object block allocator range h =
    let made = construct_buffer object block allocator range h in
    if made.0 == 0
    then some (record { storage_mode = stale; pointer = 0; offset = 0; length = 0 }, made.1)
    else (do
      b ← made.1.buffers made.0
      some (
        record { storage_mode = stale; pointer = made.0; offset = 0; length = b.length },
        made.1,
      ))

pub string_copy : String → Heap → Option (String × Heap)
unfolding reference_buffer
string_copy other h =
    if other.storage_mode == storage_managed || other.storage_mode == storage_unmanaged
    then if other.storage_mode == storage_managed && not (other.pointer == 0)
      then (do h' ← reference_buffer other.pointer h; some (other, h'))
      else some (other, h)
    else none

pub destroy : String → Heap → Option Heap
unfolding dereference_buffer
destroy s h =
    if s.storage_mode == storage_managed && not (s.pointer == 0)
    then dereference_buffer s.pointer h
    else some h

-- `operator =` on two objects at different addresses; on one object it does nothing.
pub assign : String → String → Heap → Option (String × Heap)
unfolding reference_buffer dereference_buffer
assign this other h = do
  h₁ ← if this.storage_mode == storage_managed then dereference_buffer this.pointer h else some h
  h₂ ← if other.storage_mode == storage_managed then reference_buffer other.pointer h₁ else some h₁
  some (other, h₂)

-- The address of the first character, which the storage mode selects.
abbrev pub characters_of : String → Heap → Option ℕ
characters_of s h =
    if s.storage_mode == storage_managed
    then (do b ← h.buffers s.pointer; some b.characters)
    else some s.pointer

-- What an iterator reads of the string at an address.
abbrev pub view : ℕ → String → Heap → Iterator.String
view this s h = record {
  address = this;
  characters = characters_of s h >>= h.memory;
  offset = s.offset;
  length = s.length;
}

abbrev pub begin :
    ⦃codes : Numbering⦄ → ℕ → ℕ → String → Heap → Option (Option ExceptionCode × StringIterator)
begin stale this s h = string_iterator stale (view this s h) 0

abbrev pub end :
    ⦃codes : Numbering⦄ → ℕ → ℕ → String → Heap → Option (Option ExceptionCode × StringIterator)
end stale this s h = string_iterator stale (view this s h) s.length

abbrev pub iterates : ℕ → StringIterator → Bool
iterates this i = elim i.string [ none ↦ false | some s ↦ s.address == this ]

-- The exception that is pushed, the string, and the heap behind it.
pub substring :
    ℕ
    → String
    → StringIterator
    → StringIterator
    → Heap
    → Option (Option ExceptionCode × String × Heap)
unfolding string_copy
substring this s first last h =
    if not (iterates this first) || not (iterates this last)
    then some (some ExceptionCode.invalid_argument, string_default, h)
    else (do
      (t, h') ← string_copy s h
      some (
        none,
        record t {
          offset = first.current_offset;
          length = (last.current_offset + 2 ^ 64 - first.current_offset) % 2 ^ 64;
        },
        h',
      ))

-- The bytes of a range of an array; `none` reads behind its end.
abbrev pub range : ℕ → ℕ → List ℕ → Option (List ℕ)
range offset n bytes =
    if ltb (length bytes) (offset + n) then none else some (take n (drop offset bytes))

-- A managed string returns its pointer, from which `string(const char*)` makes the result.
pub duplicate_with : ℕ → ℕ → ℕ → ℕ → String → Heap → Option (String × Heap)
unfolding string_unmanaged string_range
duplicate_with stale object block allocator s h =
    if s.length == 0
    then some (string_default, h)
    else if s.storage_mode == storage_managed
    then (do b ← h.buffers s.pointer; t ← string_unmanaged b.characters h; some (t, h))
    else (do
      bytes ← h.memory s.pointer
      copied ← range s.offset s.length bytes
      string_range stale object block allocator copied h)

pub duplicate : ℕ → ℕ → ℕ → String → Heap → Option (String × Heap)
unfolding duplicate_with string_copy
duplicate stale object block s h =
    if s.length == 0
    then some (string_default, h)
    else if s.storage_mode == storage_unmanaged
    then string_copy s h
    else (do b ← h.buffers s.pointer; duplicate_with stale object block b.allocator s h)

-- `std::memcmp(…) == 0`; `none` reads behind the end of an array.
pub memcmp : ℕ → List ℕ → List ℕ → Option Bool
memcmp zero xs ys = some true
memcmp (suc n) (x ∷ xs) (y ∷ ys) = do rest ← memcmp n xs ys; some (x == y && rest)
memcmp (suc n) _ _ = none

-- Behind the test that both lengths are `n`; one address holds the same characters.
abbrev pub equal_data : ℕ → Heap → ℕ → ℕ → Option Bool
equal_data n h left_data right_data =
    if n == 0 || left_data == right_data
    then some true
    else (do xs ← h.memory left_data; ys ← h.memory right_data; memcmp n xs ys)

pub equal : String → String → Heap → Option Bool
equal left right h =
    let left_length = (left.length + 2 ^ 64 - left.offset) % 2 ^ 64 in
    let right_length = (right.length + 2 ^ 64 - right.offset) % 2 ^ 64 in
    if not (left_length == right_length) then some false else (do
      left_data ← characters_of left h
      right_data ← characters_of right h
      equal_data left_length h left_data right_data)

pub not_equal : String → String → Heap → Option Bool
unfolding equal
not_equal left right h = do e ← equal left right h; some (not e)
