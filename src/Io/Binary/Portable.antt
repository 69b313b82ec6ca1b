-- ===== src/Io/Binary/Portable.antt =====
-- binary_reader.cpp and binary_writer.cpp: the bytes in the stream do not depend on the host.
use hologine.Base.{ℕ, ◌^◌, ◌<◌, ◌≡◌, refl, Bool, true, not, Option, some, arith, ◌==◌, ◌>>=◌}
use hologine.Io.Stream.{StreamInterface}
use hologine.Io.Binary.{
  Endianness, little, big, same_endianness, object_bytes, BinaryReader, BinaryWriter, binary_reader,
  binary_writer, read_value, read_byte, read_ubyte, read_short, read_ushort, read_int, read_uint,
  read_long, read_ulong, write_value, write_byte, write_ubyte, write_short, write_ushort, write_int,
  write_uint, write_long, write_ulong,
}
use hologine.Io.Binary.Order.{
  Reverses, swap16-Reverses, swap32-Reverses, swap64-Reverses, written_order, read_order,
  length-object_bytes, object_value-object_bytes,
}

-- The primitives that have a pair of methods.
pub data Primitive : Type 0 where
  int8 uint8 int16 uint16 int32 uint32 int64 uint64 : Primitive

abbrev pub size_of : Primitive → ℕ
size_of int8 = 1
size_of uint8 = 1
size_of int16 = 2
size_of uint16 = 2
size_of int32 = 4
size_of uint32 = 4
size_of int64 = 8
size_of uint64 = 8

module _ {S : Type 0} (i : StreamInterface S) (host : Endianness) where
  abbrev pub read_primitive : Primitive → BinaryReader S → Option (Option ℕ × BinaryReader S)
  read_primitive int8 = read_byte i host
  read_primitive uint8 = read_ubyte i host
  read_primitive int16 = read_short i host
  read_primitive uint16 = read_ushort i host
  read_primitive int32 = read_int i host
  read_primitive uint32 = read_uint i host
  read_primitive int64 = read_long i host
  read_primitive uint64 = read_ulong i host

  abbrev pub write_primitive : Primitive → BinaryWriter S → ℕ → Option (Bool × BinaryWriter S)
  write_primitive int8 = write_byte i host
  write_primitive uint8 = write_ubyte i host
  write_primitive int16 = write_short i host
  write_primitive uint16 = write_ushort i host
  write_primitive int32 = write_int i host
  write_primitive uint32 = write_uint i host
  write_primitive int64 = write_long i host
  write_primitive uint64 = write_ulong i host

  abbrev pub reader : S → Endianness → BinaryReader S
  reader s e = record { swap = not (same_endianness e host); backing_stream = s }

  abbrev pub writer : S → Endianness → BinaryWriter S
  writer s e = record { swap = not (same_endianness e host); backing_stream = s }

  write_value-order :
      {n : ℕ} {f : ℕ → ℕ} (r : Reverses n f) (s : S) (e : Endianness) (v : ℕ)
      → v < 256 ^ n
      → write_value i host n f (writer s e) v
        ≡ (do (count, s') ← i.write s (object_bytes e n v); some (count == n, writer s' e))
  unfolding write_value
  write_value-order r s e v h = rw (written_order r host e v h)

  read_value-order :
      {n : ℕ} {f : ℕ → ℕ} (r : Reverses n f) (s s' : S) (e : Endianness) (v : ℕ)
      → v < 256 ^ n
      → i.read s n ≡ some (object_bytes e n v, s')
      → read_value i host n f (reader s e) ≡ some (some v, reader s' e)
  unfolding read_value
  read_value-order {n = n} r s s' e v h got =
      ground (arith, got, length-object_bytes e n v, read_order r host e v h)

  one_byte : (e e' : Endianness) (v : ℕ) → object_bytes e 1 v ≡ object_bytes e' 1 v
  one_byte little little v = refl
  one_byte little big v = refl
  one_byte big little v = refl
  one_byte big big v = refl

  write_byte-order :
      (s : S) (e : Endianness) (v : ℕ)
      → write_ubyte i host (writer s e) v
        ≡ (do (count, s') ← i.write s (object_bytes e 1 v); some (count == 1, writer s' e))
  unfolding write_ubyte
  write_byte-order s e v = rw (one_byte host e v)

  read_byte-order :
      (s s' : S) (e : Endianness) (v : ℕ)
      → v < 256 ^ 1
      → i.read s 1 ≡ some (object_bytes e 1 v, s')
      → read_ubyte i host (reader s e) ≡ some (some v, reader s' e)
  unfolding read_ubyte
  read_byte-order s s' e v h got = ground (
    arith,
    got,
    one_byte e host v,
    length-object_bytes host 1 v,
    object_value-object_bytes host 1 v h,
  )

  -- Whatever the host's byte order, a writer made for an order hands the bytes of the integer to
  -- the stream in that order, and returns whether the stream took them all.
  pub write_primitive-order :
      (p : Primitive) (s : S) (e : Endianness) (v : ℕ)
      → i.get_writable s ≡ true
      → v < 256 ^ size_of p
      → (do w ← binary_writer i host s e; write_primitive p w v) ≡ (do
        (count, s') ← i.write s (object_bytes e (size_of p) v)
        some (count == size_of p, writer s' e))
  unfolding binary_writer write_byte write_short write_ushort write_int write_uint write_long
      write_ulong
  write_primitive-order int8 s e v y h = rw y (write_byte-order s e v)
  write_primitive-order uint8 s e v y h = rw y (write_byte-order s e v)
  write_primitive-order int16 s e v y h = rw y (write_value-order swap16-Reverses s e v h)
  write_primitive-order uint16 s e v y h = rw y (write_value-order swap16-Reverses s e v h)
  write_primitive-order int32 s e v y h = rw y (write_value-order swap32-Reverses s e v h)
  write_primitive-order uint32 s e v y h = rw y (write_value-order swap32-Reverses s e v h)
  write_primitive-order int64 s e v y h = rw y (write_value-order swap64-Reverses s e v h)
  write_primitive-order uint64 s e v y h = rw y (write_value-order swap64-Reverses s e v h)

  -- Whatever the host's byte order, a reader made for an order that gets from the stream the bytes
  -- of an integer in that order returns the integer.
  pub read_primitive-order :
      (p : Primitive) (s s' : S) (e : Endianness) (v : ℕ)
      → i.get_readable s ≡ true
      → v < 256 ^ size_of p
      → i.read s (size_of p) ≡ some (object_bytes e (size_of p) v, s')
      → (do r ← binary_reader i host s e; read_primitive p r) ≡ some (some v, reader s' e)
  unfolding binary_reader read_byte read_short read_ushort read_int read_uint read_long read_ulong
  read_primitive-order int8 s s' e v y h g = rw y (read_byte-order s s' e v h g)
  read_primitive-order uint8 s s' e v y h g = rw y (read_byte-order s s' e v h g)
  read_primitive-order int16 s s' e v y h g = rw y (read_value-order swap16-Reverses s s' e v h g)
  read_primitive-order uint16 s s' e v y h g = rw y (read_value-order swap16-Reverses s s' e v h g)
  read_primitive-order int32 s s' e v y h g = rw y (read_value-order swap32-Reverses s s' e v h g)
  read_primitive-order uint32 s s' e v y h g = rw y (read_value-order swap32-Reverses s s' e v h g)
  read_primitive-order int64 s s' e v y h g = rw y (read_value-order swap64-Reverses s s' e v h g)
  read_primitive-order uint64 s s' e v y h g = rw y (read_value-order swap64-Reverses s s' e v h g)
