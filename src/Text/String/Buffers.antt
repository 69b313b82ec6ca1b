-- ===== src/Text/String/Buffers.antt =====
-- hologine/core/text/string.hpp and string.cpp: the buffers that strings share, each with a count of
-- the strings that refer to it.
use hologine.Base.{
  true, false, ℕ, ◌+◌, ◌-◌, ◌%◌, ◌^◌, Option, none, some, List, [], ◌∷◌, length, ◌==◌,
  if◌then◌else◌, ◌>>=◌,
}

-- `characters` is the pointer `data`.
pub record StringBuffer : Type 0 where
  pub characters : ℕ
  pub length : ℕ
  pub reference_count : ℕ
  pub allocator : ℕ

-- What pointers lead to: buffer objects, and the bytes that may be read from an address on.
pub record Heap : Type 0 where
  pub buffers : ℕ → Option StringBuffer
  pub memory : ℕ → Option (List ℕ)

abbrev pub update {ℓ} : {A : Type ℓ} → (ℕ → Option A) → ℕ → Option A → ℕ → Option A
update f p v q = if q == p then v else f q

-- Up to the first zero byte; `none` reads on behind the end.
unfoldable pub c_string : List ℕ → Option (List ℕ)
c_string [] = none
c_string (x ∷ xs) = elim (x == 0) [ true ↦ some [] | false ↦ do s ← c_string xs; some (x ∷ s) ]

-- `++buffer->reference_count`; `none` is a pointer that leads to no buffer, null among them.
unfoldable pub reference_buffer : ℕ → Heap → Option Heap
reference_buffer p h = do
  b ← h.buffers p
  some (record h {
    buffers =
        update h.buffers p (some (record b { reference_count = (b.reference_count + 1) % 2 ^ 64 }));
  })

-- The last reference gives back the characters and the buffer.
abbrev pub released : ℕ → Heap → StringBuffer → Option Heap
released p h b =
    if b.reference_count == 0
    then none
    else if b.reference_count - 1 == 0
    then some
        (record { buffers = update h.buffers p none; memory = update h.memory b.characters none })
    else some (record h {
      buffers = update h.buffers p (some (record b { reference_count = b.reference_count - 1 }));
    })

unfoldable pub dereference_buffer : ℕ → Heap → Option Heap
dereference_buffer p h = h.buffers p >>= released p h

-- `object` and `block` are what the allocator answers for the buffer and for its characters.
unfoldable pub construct_buffer : ℕ → ℕ → ℕ → List ℕ → Heap → ℕ × Heap
construct_buffer object block allocator range h =
    if object == 0 then (0, h) else if block == 0 then (0, h) else (
      object,
      record {
        buffers = update h.buffers object (
            some (record {
              characters = block;
              length = length range;
              reference_count = 1;
              allocator = allocator;
            }));
        memory = update h.memory block (some range);
      },
    )
