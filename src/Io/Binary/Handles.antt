-- ===== src/Io/Binary/Handles.antt =====
-- The handles of hologine/core/io/binary_reader.hpp and binary_writer.hpp.
use hologine.Base.{ℕ, ◌%◌, ◌^◌, Bool, true, false, Option, none, some, ◌==◌, if◌then◌else◌, ◌>>=◌}
use hologine.Handle.{HandleDefinition, encode, decode_age, decode_scope, decode_index}
use hologine.Io.Stream.{StreamInterface}
use hologine.Io.Binary.{Endianness, BinaryReader, BinaryWriter, read_uint, write_uint}

module _ {S : Type 0} (i : StreamInterface S) (host : Endianness) where
  -- One operand of the `&&` in `write_handle`, behind the result of those before.
  abbrev pub and_write_uint : ℕ → Bool × BinaryWriter S → Option (Bool × BinaryWriter S)
  and_write_uint value (written, w) =
      if written then write_uint i host w (value % 2 ^ 32) else some (false, w)

  abbrev pub write_handle : HandleDefinition → BinaryWriter S → ℕ → Option (Bool × BinaryWriter S)
  write_handle d w handle = do
    one ← and_write_uint d.type (true, w)
    two ← and_write_uint (decode_age d handle) one
    three ← and_write_uint (decode_scope d handle) two
    and_write_uint (decode_index d handle) three

  -- One operand of the `||` in `read_handle`, behind those before; `next` is the rest of the
  -- function, for the value that was read.
  abbrev pub or_read_uint :
      (ℕ → BinaryReader S → Option (Option ℕ × BinaryReader S))
      → BinaryReader S
      → Option (Option ℕ × BinaryReader S)
  or_read_uint next r = read_uint i host r >>= λ read. elim read.0 [
    | none ↦ some (none, read.1)
    | some value ↦ next value read.1
  ]

  -- The handle that is assigned, or `none` for the result `false`.
  abbrev pub read_handle : HandleDefinition → BinaryReader S → Option (Option ℕ × BinaryReader S)
  read_handle d = or_read_uint (λ type. or_read_uint (λ age. or_read_uint (λ scope.
      or_read_uint (λ index r.
        if d.type == type then some (some (encode d age scope index), r) else some (none, r)))))
