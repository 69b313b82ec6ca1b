-- ===== src/Io/Binary/RoundTrip.antt =====
-- The binary writer and reader over a memory stream.
use hologine.Base.{ℕ, ◌+◌, ◌^◌, ◌≤◌, ◌<◌, ◌≡◌, ◌∙◌, true, some, arith, ◌>>=◌}
use hologine.Io.Stream.{absolute}
use hologine.Io.MemoryStream.{
  MemoryStream, seek, get_readable, get_writable, memory_stream_interface,
}
use hologine.Io.MemoryStream.Transfer.{IsValid, write-seek-read, is_readable-seek-write}
use hologine.Io.Binary.{Endianness, object_bytes, binary_reader, binary_writer}
use hologine.Io.Binary.Order.{length-object_bytes}
use hologine.Io.Binary.Portable.{
  Primitive, size_of, read_primitive, write_primitive, reader, writer, write_primitive-order,
  read_primitive-order,
}

-- An integer that a writer on one host stores where it fits is what a reader for the same byte
-- order, on any host, reads after a seek back to where the writer started; both report success
-- and leave the stream at the same place.
pub read-write :
    (p : Primitive) (here there e : Endianness) (m : MemoryStream) (v stale : ℕ)
    → IsValid m
    → m.is_readable ≡ true
    → m.is_writable ≡ true
    → v < 256 ^ size_of p
    → m.current_position + size_of p ≤ m.stream_length
    → (m' : MemoryStream) × ((do
      w ← binary_writer memory_stream_interface here m e
      write_primitive memory_stream_interface here p w v)
        ≡ some (true, writer memory_stream_interface here m' e))
      × ((do
        r ←
            binary_reader memory_stream_interface there
              (seek m' stale m.current_position absolute).1
              e
        read_primitive memory_stream_interface there p r)
          ≡ some (some v, reader memory_stream_interface there m' e))
unfolding get_readable get_writable
read-write p here there e m v stale valid r w h fits =
    let long = length-object_bytes e (size_of p) v in
    let (m', wrote, got) =
      write-seek-read m (object_bytes e (size_of p) v) stale valid r w (omega (arith, long)) in
    let back = (seek m' stale m.current_position absolute).1 in
    let readable = is_readable-seek-write m m' _ _ stale m.current_position valid wrote ∙ r in
    (
      m',
      write_primitive-order memory_stream_interface here p m e v w h
          ∙ rw wrote (rw long (ground arith)),
      read_primitive-order memory_stream_interface there p back m' e v readable h (rw long at got),
    )
