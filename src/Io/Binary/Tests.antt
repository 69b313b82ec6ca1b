-- ===== src/Io/Binary/Tests.antt =====
-- The theorems on the binary reader and writer at a concrete stream.
use hologine.Base.{ℕ, ◌≡◌, refl, true, some, List, arith, ◌>>=◌, replicate}
use hologine.Io.Stream.{absolute}
use hologine.Io.MemoryStream.{MemoryStream, memory_stream_interface, seek}
use hologine.Io.Binary.{little, big, binary_reader, binary_writer, read_uint, write_uint}
use hologine.Io.Binary.Portable.{uint32, reader, writer}
use hologine.Io.Binary.RoundTrip.{read-write}

abbrev stream : List ℕ → MemoryStream
stream block = record {
  is_readable = true;
  is_writable = true;
  current_position = 0;
  stream_length = 6;
  stream_data = block;
}

read-write_example :
    let start : MemoryStream = stream (replicate 6 0) in
    (m : MemoryStream) × ((do
      w ← binary_writer memory_stream_interface little start big
      write_uint memory_stream_interface little w 0x01020304)
      ≡ some (true, writer memory_stream_interface little m big))
    × ((do
      r ← binary_reader memory_stream_interface big (seek m 9 0 absolute).1 big
      read_uint memory_stream_interface big r)
        ≡ some (some 0x01020304, reader memory_stream_interface big m big))
read-write_example =
    read-write uint32 little big big (stream (replicate 6 0)) 0x01020304 9 (omega arith) refl refl
      (omega arith) (omega arith)
