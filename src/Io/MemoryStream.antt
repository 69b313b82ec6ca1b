-- ===== src/Io/MemoryStream.antt =====
-- hologine/core/io/memory_stream.cpp: a stream over a block of memory.
pub mod Bounds
pub mod Transfer
pub mod Seek
mod Tests
use hologine.Base.{
  ℕ, zero, suc, ◌+◌, ◌-◌, ◌%◌, ◌^◌, Bool, true, false, not, Option, none, some, List, [], ◌∷◌, ltb,
  leb, if◌then◌else◌, ◌>>=◌, ◌>>◌, get_elem?, set,
}
use hologine.Io.Stream.{
  StreamInterface, SeekFlag, forward_relative, backward_relative, end, absolute, unknown,
}

-- `stream_data` is the memory that the pointer leads to, byte by byte.
pub record MemoryStream : Type 0 where
  pub is_readable : Bool
  pub is_writable : Bool
  pub current_position : ℕ
  pub stream_length : ℕ
  pub stream_data : List ℕ

pub memory_stream : List ℕ → ℕ → Bool → Bool → MemoryStream
memory_stream stream length readable writable = record {
  is_readable = readable;
  is_writable = writable;
  current_position = 0;
  stream_length = length;
  stream_data = stream;
}

abbrev pub memory_stream_default : List ℕ → ℕ → MemoryStream
unfolding memory_stream
memory_stream_default stream length = memory_stream stream length true true

-- The loop of `read`, with `left` bytes to go: the bytes that it stores from `data` on.
pub read_loop : MemoryStream → ℕ → Option (List ℕ × MemoryStream)
read_loop m zero = some ([], m)
read_loop m (suc left) =
    let rest = read_loop (record m { current_position = m.current_position + 1 }) left in
    if ltb m.current_position m.stream_length
    then (do
      byte ← get_elem? m.stream_data m.current_position
      (bytes, m') ← rest
      some (byte ∷ bytes, m'))
    else some ([], m)

pub read : MemoryStream → ℕ → Option (List ℕ × MemoryStream)
unfolding read_loop
read m count = if not m.is_readable then some ([], m) else read_loop m count

-- `*(stream_data + current_position) = byte`, a fault outside of the block
pub store_byte : MemoryStream → ℕ → Option MemoryStream
store_byte m byte = do
  _ ← get_elem? m.stream_data m.current_position
  some (record m { stream_data = set m.stream_data m.current_position byte })

-- The loop of `write`, over the bytes of `data` that are left: how many it stores.
pub write_loop : MemoryStream → List ℕ → Option (ℕ × MemoryStream)
unfolding store_byte
write_loop m [] = some (0, m)
write_loop m (byte ∷ rest) =
    if ltb m.current_position m.stream_length
    then (do
      stored ← store_byte m byte
      (count, m') ← write_loop (record stored { current_position = m.current_position + 1 }) rest
      some (count + 1, m'))
    else some (0, m)

pub write : MemoryStream → List ℕ → Option (ℕ × MemoryStream)
unfolding write_loop
write m bytes = if not m.is_writable then some (0, m) else write_loop m bytes

-- The new position before it is clamped, `none` for an unknown flag. `stale` is what the variable
-- `new_position` holds before it is assigned; with the flag `end` the code assigns to `offset`
-- instead if the offset is at most the length.
pub seek_target : MemoryStream → ℕ → ℕ → SeekFlag → Option ℕ
seek_target m stale offset absolute = some offset
seek_target m stale offset forward_relative = some ((m.current_position + offset) % 2 ^ 64)
seek_target m stale offset backward_relative =
    if ltb m.current_position offset then some 0 else some (m.current_position - offset)
seek_target m stale offset end = if ltb m.stream_length offset then some 0 else some stale
seek_target m stale offset unknown = none

pub seek : MemoryStream → ℕ → ℕ → SeekFlag → Bool × MemoryStream
unfolding seek_target
seek m stale offset flags = elim (seek_target m stale offset flags) [
  | none ↦ (false, m)
  | some new_position ↦ (
    true,
    record m {
      current_position = if leb m.stream_length new_position then m.stream_length else new_position;
    },
  )
]

abbrev pub get_position : MemoryStream → ℕ
get_position m = m.current_position

unfoldable pub get_readable : MemoryStream → Bool
get_readable m = m.is_readable

unfoldable pub get_writable : MemoryStream → Bool
get_writable m = m.is_writable

abbrev pub get_length : MemoryStream → ℕ
get_length m = m.stream_length

abbrev pub memory_stream_interface : StreamInterface MemoryStream
memory_stream_interface = record {
  read = read;
  write = write;
  seek = seek;
  get_position = get_position;
  get_readable = get_readable;
  get_writable = get_writable;
  get_length = get_length;
}
