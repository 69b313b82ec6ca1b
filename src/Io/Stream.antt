-- ===== src/Io/Stream.antt =====
-- hologine/core/io/stream_interface.hpp: the operations that the reader and the writer call.
use hologine.Base.{ℕ, Bool, Option, List}

-- Flags of `seek`; any other `int` is the last constructor.
pub data SeekFlag : Type 0 where
  forward_relative backward_relative end absolute unknown : SeekFlag

-- `S` is the state of a stream. `read` returns the bytes that it stores at `data`, as many as its
-- result counts; `write` is given the `count` bytes at `data`. `none` is an access to memory that
-- the stream does not own. `seek` takes the offset behind what a variable that it does not initialise
-- holds.
pub record StreamInterface (S : Type 0) : Type 0 where
  pub read : S → ℕ → Option (List ℕ × S)
  pub write : S → List ℕ → Option (ℕ × S)
  pub seek : S → ℕ → ℕ → SeekFlag → Bool × S
  pub get_position : S → ℕ
  pub get_readable : S → Bool
  pub get_writable : S → Bool
  pub get_length : S → ℕ
