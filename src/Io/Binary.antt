-- ===== src/Io/Binary.antt =====
-- hologine/core/io/binary_reader.cpp, binary_writer.cpp and endianness.hpp, over any stream.
pub mod Order
pub mod Portable
pub mod RoundTrip
pub mod Handles
mod Tests
use hologine.Base.{
  ℕ, Bool, true, false, not, Option, none, some, List, ltb, ◌==◌, if◌then◌else◌, ◌>>=◌, length,
}
use hologine.Base.Bytes.{word, bytes}
use hologine.Math.Bits.{swap_bytes16, swap_bytes32, swap_bytes64}
use hologine.Io.Stream.{StreamInterface}
use mathlib.Core.List.{reverse}

pub data Endianness : Type 0 where
  little big : Endianness

abbrev pub same_endianness : Endianness → Endianness → Bool
same_endianness little little = true
same_endianness big big = true
same_endianness _ _ = false

-- The object representation of an integer of `n` bytes in the given order, and the integer that
-- such bytes stand for. A signed integer is its bit pattern, which the casts of the source keep.
abbrev pub object_bytes : Endianness → ℕ → ℕ → List ℕ
object_bytes little n value = bytes n value
object_bytes big n value = reverse (bytes n value)

abbrev pub object_value : Endianness → List ℕ → ℕ
object_value little representation = word representation
object_value big representation = word (reverse representation)

pub record BinaryReader (S : Type 0) : Type 0 where
  pub swap : Bool
  pub backing_stream : S

pub record BinaryWriter (S : Type 0) : Type 0 where
  pub swap : Bool
  pub backing_stream : S

-- `host` is the byte order that the build defines, HOLOGINE_LITTLE_ENDIAN or HOLOGINE_BIG_ENDIAN.
module _ {S : Type 0} (i : StreamInterface S) (host : Endianness) where
  -- `none` is a failed assertion.
  pub binary_reader : S → Endianness → Option (BinaryReader S)
  binary_reader stream endianness =
      if i.get_readable stream
      then some (record { swap = not (same_endianness endianness host); backing_stream = stream })
      else none

  pub binary_writer : S → Endianness → Option (BinaryWriter S)
  binary_writer stream endianness =
      if i.get_writable stream
      then some (record { swap = not (same_endianness endianness host); backing_stream = stream })
      else none

  -- What the methods that read a primitive of `size` bytes share: the value, or `none` for the
  -- result `false`, and the reader with the stream behind the call.
  pub read_value : ℕ → (ℕ → ℕ) → BinaryReader S → Option (Option ℕ × BinaryReader S)
  read_value size swap_bytes r = do
    (representation, stream) ← i.read r.backing_stream size
    let value = object_value host representation
    some (
      if ltb (length representation) size
          then none
          else some (if r.swap then swap_bytes value else value),
      record r { backing_stream = stream },
    )

  pub read_ubyte : BinaryReader S → Option (Option ℕ × BinaryReader S)
  read_ubyte r = do
    (representation, stream) ← i.read r.backing_stream 1
    some (
      if length representation == 1 then some (object_value host representation) else none,
      record r { backing_stream = stream },
    )

  pub read_byte : BinaryReader S → Option (Option ℕ × BinaryReader S)
  unfolding read_ubyte
  read_byte r = read_ubyte r

  pub read_ushort : BinaryReader S → Option (Option ℕ × BinaryReader S)
  unfolding read_value
  read_ushort r = read_value 2 swap_bytes16 r

  pub read_short : BinaryReader S → Option (Option ℕ × BinaryReader S)
  unfolding read_value
  read_short r = read_value 2 swap_bytes16 r

  pub read_uint : BinaryReader S → Option (Option ℕ × BinaryReader S)
  unfolding read_value
  read_uint r = read_value 4 swap_bytes32 r

  pub read_int : BinaryReader S → Option (Option ℕ × BinaryReader S)
  unfolding read_value
  read_int r = read_value 4 swap_bytes32 r

  pub read_ulong : BinaryReader S → Option (Option ℕ × BinaryReader S)
  unfolding read_value
  read_ulong r = read_value 8 swap_bytes64 r

  pub read_long : BinaryReader S → Option (Option ℕ × BinaryReader S)
  unfolding read_value
  read_long r = read_value 8 swap_bytes64 r

  -- What the methods that write a primitive of `size` bytes share.
  pub write_value : ℕ → (ℕ → ℕ) → BinaryWriter S → ℕ → Option (Bool × BinaryWriter S)
  write_value size swap_bytes w value = do
    (count, stream) ←
        i.write w.backing_stream
          (object_bytes host size (if w.swap then swap_bytes value else value))
    some (count == size, record w { backing_stream = stream })

  pub write_ubyte : BinaryWriter S → ℕ → Option (Bool × BinaryWriter S)
  write_ubyte w value = do
    (count, stream) ← i.write w.backing_stream (object_bytes host 1 value)
    some (count == 1, record w { backing_stream = stream })

  pub write_byte : BinaryWriter S → ℕ → Option (Bool × BinaryWriter S)
  unfolding write_ubyte
  write_byte w value = write_ubyte w value

  pub write_ushort : BinaryWriter S → ℕ → Option (Bool × BinaryWriter S)
  unfolding write_value
  write_ushort w value = write_value 2 swap_bytes16 w value

  pub write_short : BinaryWriter S → ℕ → Option (Bool × BinaryWriter S)
  unfolding write_value
  write_short w value = write_value 2 swap_bytes16 w value

  pub write_uint : BinaryWriter S → ℕ → Option (Bool × BinaryWriter S)
  unfolding write_value
  write_uint w value = write_value 4 swap_bytes32 w value

  pub write_int : BinaryWriter S → ℕ → Option (Bool × BinaryWriter S)
  unfolding write_value
  write_int w value = write_value 4 swap_bytes32 w value

  pub write_ulong : BinaryWriter S → ℕ → Option (Bool × BinaryWriter S)
  unfolding write_value
  write_ulong w value = write_value 8 swap_bytes64 w value

  pub write_long : BinaryWriter S → ℕ → Option (Bool × BinaryWriter S)
  unfolding write_value
  write_long w value = write_value 8 swap_bytes64 w value
