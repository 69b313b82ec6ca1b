-- ===== src/Io/MemoryStream/Tests.antt =====
-- Runs of memory_stream.cpp, and its theorems at concrete streams.
use hologine.Base.{ℕ, ◌≡◌, refl, true, some, List, [], ◌∷◌, arith}
use hologine.Io.Stream.{end, absolute}
use hologine.Io.MemoryStream.{MemoryStream, read, read_loop, write, write_loop, store_byte, seek}
use hologine.Io.MemoryStream.Transfer.{IsValid, write-seek-read}
use hologine.Io.MemoryStream.Bounds.{reads, writes, seeks, run, run-IsValid}

abbrev block : List ℕ
block = 10 ∷ 11 ∷ 12 ∷ 13 ∷ []

-- At the second of the first three bytes of the block.
abbrev stream : MemoryStream
stream = record {
  is_readable = true;
  is_writable = true;
  current_position = 1;
  stream_length = 3;
  stream_data = block;
}

stream-IsValid : IsValid stream
stream-IsValid = omega arith

partial_read : read stream 5 ≡ some (11 ∷ 12 ∷ [], record stream { current_position = 3 })
unfolding read read_loop
partial_read = refl

partial_write :
    write stream (1 ∷ 2 ∷ 3 ∷ [])
    ≡ some (2, record stream { current_position = 3; stream_data = 10 ∷ 1 ∷ 2 ∷ 13 ∷ [] })
unfolding write write_loop store_byte
partial_write = refl

run-IsValid_example :
    (m : MemoryStream) × (run (reads 1 ∷ writes (5 ∷ 6 ∷ []) ∷ seeks 9 2 end ∷ reads 7 ∷ []) stream
      ≡ some m)
    × IsValid m
run-IsValid_example = run-IsValid _ stream stream-IsValid

write-seek-read_example :
    (m : MemoryStream) × (write stream (7 ∷ 8 ∷ []) ≡ some (2, m))
    × (read (seek m 99 1 absolute).1 2 ≡ some (7 ∷ 8 ∷ [], m))
write-seek-read_example =
    write-seek-read stream (7 ∷ 8 ∷ []) 99 stream-IsValid refl refl (omega arith)
