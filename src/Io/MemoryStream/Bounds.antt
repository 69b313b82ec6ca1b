-- ===== src/Io/MemoryStream/Bounds.antt =====
-- memory_stream.cpp: every operation keeps the stream within its block.
use hologine.Base.{
  ℕ, ◌^◌, ◌≤◌, ◌<◌, ◌≡◌, refl, true, false, some, List, arith, length, take, length-take,
  length-splice, Bool, Bool-cases, drop, inl, inr, ◌⊎◌, Option, [], ◌∷◌, ◌>>=◌,
}
use hologine.Io.Stream.{SeekFlag, forward_relative, backward_relative, end, absolute, unknown}
use hologine.Io.MemoryStream.{MemoryStream, memory_stream, read, write, seek}
use hologine.Io.MemoryStream.Transfer.{IsValid, room, advance, written, read_lem, write_lem}

-- A stream over a block of at least `length` bytes starts out valid.
pub memory_stream-IsValid :
    (stream : List ℕ) (len : ℕ) (readable writable : Bool)
    → len ≤ length stream
    → len < 2 ^ 64
    → IsValid (memory_stream stream len readable writable)
unfolding memory_stream
memory_stream-IsValid stream len readable writable h small = omega arith

-- `seek` keeps the stream valid for every offset, flag and previous content of its variable, and
-- touches nothing but the position; it refuses exactly the unknown flags, and then changes nothing.
seek-IsValid :
    (m : MemoryStream) (stale offset : ℕ) (flag : SeekFlag)
    → IsValid m
    → let (accepted, m') = seek m stale offset flag in
      IsValid m'
      × (m' ≡ record m { current_position = m'.current_position })
      × ((accepted ≡ true) ⊎ (accepted ≡ false) × (flag ≡ unknown) × (m' ≡ m))
unfolding seek
seek-IsValid m stale offset absolute v = ground arith
seek-IsValid m stale offset forward_relative v = ground arith
seek-IsValid m stale offset backward_relative v = ground arith
seek-IsValid m stale offset end v = ground arith
seek-IsValid m stale offset unknown v = ground arith

read-IsValid :
    (m : MemoryStream) (count : ℕ)
    → IsValid m
    → (r : List ℕ × MemoryStream) × (read m count ≡ some r) × IsValid r.1
read-IsValid m count v = elim (Bool-cases m.is_readable) [
  | inl y ↦
      let k = room m count in
      (
        (take k (drop m.current_position m.stream_data), advance m k),
        ground (arith, y, read_lem m count v),
        ground arith,
      )
  | inr n ↦ (([], m), ground (arith, n, read_lem m count v), v)
]

write-IsValid :
    (m : MemoryStream) (bs : List ℕ)
    → IsValid m
    → (r : ℕ × MemoryStream) × (write m bs ≡ some r) × IsValid r.1
write-IsValid m bs v = elim (Bool-cases m.is_writable) [
  | inl y ↦
      let k = room m (length bs) in
      (
        (k, written m (take k bs)),
        ground (arith, y, write_lem m bs v),
        ground
            (arith, length-take k bs, length-splice m.stream_data m.current_position (take k bs)),
      )
  | inr n ↦ ((0, m), ground (arith, n, write_lem m bs v), v)
]

-- The calls that a client can make.
pub data Call : Type 0 where
  reads : ℕ → Call
  writes : List ℕ → Call
  seeks : ℕ → ℕ → SeekFlag → Call

pub run : List Call → MemoryStream → Option MemoryStream
run [] m = some m
run (reads count ∷ calls) m = do (_, m') ← read m count; run calls m'
run (writes bs ∷ calls) m = do (_, m') ← write m bs; run calls m'
run (seeks stale offset flag ∷ calls) m = run calls (seek m stale offset flag).1

-- No sequence of reads, writes and seeks on a valid stream accesses memory outside of its block,
-- and each leaves the stream valid.
pub run-IsValid :
    (calls : List Call) (m : MemoryStream)
    → IsValid m
    → (m' : MemoryStream) × (run calls m ≡ some m') × IsValid m'
unfolding run
run-IsValid [] m v = (m, refl, v)
run-IsValid (reads count ∷ calls) m v =
    let (r, e, v') = read-IsValid m count v in
    let (m', e', v'') = run-IsValid calls r.1 v' in (m', rw e e', v'')
run-IsValid (writes bs ∷ calls) m v =
    let (r, e, v') = write-IsValid m bs v in
    let (m', e', v'') = run-IsValid calls r.1 v' in (m', rw e e', v'')
run-IsValid (seeks stale offset flag ∷ calls) m v =
    run-IsValid calls (seek m stale offset flag).1 (seek-IsValid m stale offset flag v).0
