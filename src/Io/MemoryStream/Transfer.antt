-- ===== src/Io/MemoryStream/Transfer.antt =====
-- memory_stream.cpp: which bytes `read` and `write` move.
use hologine.Base.{
  ℕ, zero, suc, ◌+◌, ◌-◌, ◌^◌, ◌≤◌, ◌<◌, ◌≡◌, true, some, List, [], ◌∷◌, arith, min, length, set,
  take, drop, get_elem?-some, drop-get, take-length, length-splice, take-drop-splice, splice,
  splice-nil, splice-set, length-set, if◌then◌else◌,
}
use hologine.Io.MemoryStream.{MemoryStream, read_loop, read, store_byte, write_loop, write, seek}
use hologine.Io.Stream.{absolute}
use native.Mathlib.Decide.{dec_lt}

-- What the constructors establish, if the block holds `length` bytes.
pub record IsValid (m : MemoryStream) : Type 0 where
  pub owned : m.stream_length ≤ length m.stream_data
  pub small : m.stream_length < 2 ^ 64
  pub inside : m.current_position ≤ m.stream_length

-- How many of `count` bytes there is room for.
abbrev pub room : MemoryStream → ℕ → ℕ
room m count = min count (m.stream_length - m.current_position)

abbrev pub advance : MemoryStream → ℕ → MemoryStream
advance m k = record m { current_position = m.current_position + k }

read_loop_lem :
    (count : ℕ) (m : MemoryStream)
    → m.stream_length ≤ length m.stream_data
    → m.current_position ≤ m.stream_length
    → read_loop m count
      ≡ some (take (room m count) (drop m.current_position m.stream_data), advance m (room m count))
unfolding read_loop
read_loop_lem zero m h q = ground arith
read_loop_lem (suc count) m h q = elim (dec_lt m.current_position m.stream_length) [
  | yes p ↦
      let (b, e) = get_elem?-some m.stream_data m.current_position (omega arith) in
      let enough : room m (suc count) ≡ suc (room (advance m 1) count) = omega arith in
      ground (
        arith,
        e,
        enough,
        drop-get m.stream_data m.current_position b e,
        read_loop_lem count (advance m 1) h,
      )
  | no p ↦ let full : room m (suc count) ≡ 0 = omega arith in ground (arith, full)
]

-- `read` on a valid stream stores the bytes from the position on, as many as are asked for and
-- are left before the end, and moves the position behind them; a stream that is not readable
-- yields nothing and stays as it is.
pub read_lem :
    (m : MemoryStream) (count : ℕ)
    → IsValid m
    → read m count ≡ (
        if m.is_readable
        then some
            (take (room m count) (drop m.current_position m.stream_data), advance m (room m count))
        else some ([], m))
unfolding read
read_lem m count v = ground (arith, read_loop_lem count m)

abbrev pub written : MemoryStream → List ℕ → MemoryStream
written m bs = record m {
  current_position = m.current_position + length bs;
  stream_data = splice m.stream_data m.current_position bs;
}

write_loop_lem :
    (bs : List ℕ) (m : MemoryStream)
    → m.stream_length ≤ length m.stream_data
    → m.current_position ≤ m.stream_length
    → write_loop m bs ≡ some (room m (length bs), written m (take (room m (length bs)) bs))
unfolding write_loop store_byte
write_loop_lem [] m h q = ground (arith, splice-nil m.stream_data m.current_position)
write_loop_lem (b ∷ bs) m h q = elim (dec_lt m.current_position m.stream_length) [
  | yes p ↦
      let (old, e) = get_elem?-some m.stream_data m.current_position (omega arith) in
      let next : MemoryStream = record m {
        stream_data = set m.stream_data m.current_position b;
        current_position = m.current_position + 1;
      } in
      let enough : room m (length (b ∷ bs)) ≡ suc (room next (length bs)) = omega arith in
      ground (
        arith,
        e,
        enough,
        length-set m.stream_data m.current_position b,
        splice-set m.stream_data m.current_position b (take (room next (length bs)) bs),
        write_loop_lem bs next,
      )
  | no p ↦
      let full : room m (length (b ∷ bs)) ≡ 0 = omega arith in
      ground (arith, full, splice-nil m.stream_data m.current_position)
]

-- `write` on a valid stream copies the bytes that fit over those from the position on, changes no
-- other byte, counts the copied bytes and moves the position behind them; a stream that is not
-- writable stays as it is.
pub write_lem :
    (m : MemoryStream) (bs : List ℕ)
    → IsValid m
    → write m bs ≡ (
        if m.is_writable
        then some (room m (length bs), written m (take (room m (length bs)) bs))
        else some (0, m))
unfolding write
write_lem m bs v = ground (arith, write_loop_lem bs m)

-- Bytes that fit are written in full, and reading as many from the old position gives them back.
pub write-seek-read :
    (m : MemoryStream) (bs : List ℕ) (stale : ℕ)
    → IsValid m
    → m.is_readable ≡ true
    → m.is_writable ≡ true
    → m.current_position + length bs ≤ m.stream_length
    → (m' : MemoryStream) × (write m bs ≡ some (length bs, m'))
      × (read (seek m' stale m.current_position absolute).1 (length bs) ≡ some (bs, m'))
unfolding seek
write-seek-read m bs stale v r w fits =
    let all : room m (length bs) ≡ length bs = omega arith in
    let back : MemoryStream = record m {
      stream_data = splice m.stream_data m.current_position bs;
    } in
    let still : IsValid back = ground (arith, length-splice m.stream_data m.current_position bs) in
    (
      written m bs,
      ground (arith, write_lem m bs v, all, take-length bs (length bs)),
      ground (
        arith,
        read_lem back (length bs) still,
        take-drop-splice m.stream_data m.current_position bs,
      ),
    )

-- `write` and `seek` leave the stream as readable as it was.
pub is_readable-seek-write :
    (m m' : MemoryStream) (bs : List ℕ) (n stale offset : ℕ)
    → IsValid m
    → write m bs ≡ some (n, m')
    → (seek m' stale offset absolute).1.is_readable ≡ m.is_readable
unfolding seek
is_readable-seek-write m m' bs n stale offset v e = ground (arith, write_lem m bs v)
