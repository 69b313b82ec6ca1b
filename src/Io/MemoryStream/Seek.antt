-- ===== src/Io/MemoryStream/Seek.antt =====
-- memory_stream.cpp: where `seek` goes.
use hologine.Base.{ℕ, ◌+◌, ◌≤◌, ◌≡◌, true, min, arith}
use hologine.Io.Stream.{forward_relative, backward_relative, end}
use hologine.Io.MemoryStream.{MemoryStream, seek}
use hologine.Io.MemoryStream.Transfer.{IsValid}

-- A seek forward that stays within the stream is taken back by one backward, and the other way
-- round.
pub seek-seek :
    (m : MemoryStream) (stale offset : ℕ)
    → IsValid m
    → m.current_position + offset ≤ m.stream_length
    → let (forth, m') = seek m stale offset forward_relative in
      let (back, m'') = seek m' stale offset backward_relative in
      (forth ≡ true)
      × (m'.current_position ≡ m.current_position + offset)
      × (back ≡ true)
      × (m'' ≡ m)
unfolding seek
seek-seek m stale offset v h = ground arith

-- A seek from the end by at most the length goes to what its local variable happened to hold,
-- clamped to the length, whatever the offset is.
pub seek-end :
    (m : MemoryStream) (stale offset : ℕ)
    → offset ≤ m.stream_length
    → seek m stale offset end ≡ (true, record m { current_position = min stale m.stream_length })
unfolding seek
seek-end m stale offset h = ground arith
