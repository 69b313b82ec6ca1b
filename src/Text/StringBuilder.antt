-- ===== src/Text/StringBuilder.antt =====
-- hologine/core/text/string_builder.cpp: a list of character buffers that becomes one string.
pub mod Chain
pub mod Pieces
pub mod Result
mod Tests
use hologine.Base.{
  ℕ, zero, suc, ◌+◌, ◌-◌, ◌%◌, ◌^◌, Bool, true, false, Option, none, some, List, [], ◌∷◌, length,
  ◌==◌, ltb, if◌then◌else◌, ◌>>=◌, splice, drop, ◌++◌,
}
use hologine.Text.String.{String, storage_managed, string_default, characters_of, range}
use hologine.Text.String.Buffers.{Heap, update}

-- `bytes` are the characters, which stand behind the header.
pub record CharacterBuffer : Type 0 where
  pub next : ℕ
  pub length : ℕ
  pub bytes : List ℕ

-- `buffers` is what pointers to character buffers lead to.
pub record StringBuilder : Type 0 where
  pub buffer_list_head : ℕ
  pub buffer_list_tail : ℕ
  pub length : ℕ
  pub deallocate_buffer_list : Bool
  pub buffers : ℕ → Option CharacterBuffer

abbrev pub sizeof_character_buffer : ℕ
sizeof_character_buffer = 16

-- The constructor leaves `length` alone, which holds `stale`.
abbrev pub string_builder : ℕ → Bool → StringBuilder
string_builder stale deallocate = record {
  buffer_list_head = 0;
  buffer_list_tail = 0;
  length = stale;
  deallocate_buffer_list = deallocate;
  buffers = λ p. none;
}

abbrev pub get_character_buffer_data : ℕ → ℕ
get_character_buffer_data buffer = buffer + sizeof_character_buffer

-- `answer` is what the allocator returns for a size, `stale` what the new characters hold. The result
-- is the pointer to the characters; `none` is an access through a tail that leads nowhere.
pub request_buffer : (ℕ → ℕ) → List ℕ → ℕ → StringBuilder → Option (ℕ × StringBuilder)
request_buffer answer stale length b =
    let buffer = answer ((sizeof_character_buffer + length) % 2 ^ 64) in
    let fresh : CharacterBuffer = record { next = 0; length = length; bytes = stale } in
    let made = update b.buffers buffer (some fresh) in
    if buffer == 0
    then some (0, b)
    else if b.buffer_list_tail == 0
    then some (
      get_character_buffer_data buffer,
      record b { buffer_list_head = buffer; buffer_list_tail = buffer; buffers = made },
    )
    else (do
      tail ← made b.buffer_list_tail
      some (
        get_character_buffer_data buffer,
        record b {
          buffer_list_tail = buffer;
          buffers = update made b.buffer_list_tail (some (record tail { next = buffer }));
        },
      ))

-- The caller of `request_buffer` writes the characters from the first on; `none` is a write behind
-- their end.
pub write_buffer : ℕ → List ℕ → StringBuilder → Option StringBuilder
write_buffer pointer source b = do
  c ← b.buffers (pointer - sizeof_character_buffer)
  if ltb c.length (length source)
      then none
      else some (record b {
        buffers =
            update b.buffers (pointer - sizeof_character_buffer)
              (some (record c { bytes = source ++ drop (length source) c.bytes }));
      })

-- `append` behind the request, for the characters at `p`.
abbrev pub appended : String → Heap → ℕ → ℕ → StringBuilder → Option (Bool × StringBuilder)
appended s h p data_pointer b = if data_pointer == 0 then some (false, b) else (do
  characters ← h.memory p
  source ← range s.offset s.length characters
  b' ← write_buffer data_pointer source b
  some (true, b'))

pub append : (ℕ → ℕ) → List ℕ → String → Heap → StringBuilder → Option (Bool × StringBuilder)
unfolding request_buffer write_buffer
append answer stale s h b = do
  p ← characters_of s h
  (data_pointer, b') ← request_buffer answer stale s.length b
  appended s h p data_pointer b'

-- The copying loop of `to_string` over the buffers from `current` on; `target` is the new array.
-- `none` is a copy behind its end, or a pointer that leads nowhere. The fuel bounds the list.
pub copy_buffers : ℕ → ℕ → ℕ → List ℕ → StringBuilder → Option (List ℕ)
copy_buffers zero current index target b = none
copy_buffers (suc fuel) current index target b = elim (current == 0) [
  | true ↦ some target
  | false ↦ do
    c ← b.buffers current
    copied ←
        if ltb (length target) (index + c.length) then none else some (splice target index c.bytes)
    copy_buffers fuel c.next (index + c.length) copied b
]

-- `object` and `block` are what the allocator answers for the buffer and its characters, `stale`
-- what they hold. Neither the length of the string nor the allocator of its buffer, which holds
-- `owner`, is assigned.
pub to_string : ℕ → ℕ → ℕ → ℕ → List ℕ → StringBuilder → Heap → Option (String × Heap)
unfolding copy_buffers
to_string fuel object block owner stale b h =
    if b.length == 0
    then some (string_default, h)
    else if object == 0
    then some (string_default, h)
    else if block == 0
    then some (string_default, h)
    else (do
      characters ← copy_buffers fuel b.buffer_list_head 0 stale b
      some (
        record string_default { storage_mode = storage_managed; pointer = object },
        record {
          buffers = update h.buffers object (
              some (record {
                characters = block;
                length = b.length;
                reference_count = 1;
                allocator = owner;
              }));
          memory = update h.memory block (some characters);
        },
      ))

-- The pointers that the destructor gives back, in order, from `current` on.
pub release_buffers : ℕ → ℕ → StringBuilder → Option (List ℕ)
release_buffers zero current b = none
release_buffers (suc fuel) current b = elim (current == 0) [
  | true ↦ some []
  | false ↦ do c ← b.buffers current; rest ← release_buffers fuel c.next b; some (current ∷ rest)
]

pub destroy : ℕ → StringBuilder → Option (List ℕ)
unfolding release_buffers
destroy fuel b =
    if b.deallocate_buffer_list then release_buffers fuel b.buffer_list_head b else some []
