-- ===== src/Memory/Allocator/Arrays.antt =====
-- hologine/core/memory/allocator.hpp: arrays of objects, behind their length.
use hologine.Base.{
  ℕ, zero, suc, ◌+◌, ◌-◌, ◌*◌, ◌%◌, ◌^◌, ◌≡◌, refl, Option, none, some, List, [], ◌∷◌, ◌==◌,
  if◌then◌else◌, ◌>>=◌,
}

abbrev pub sizeof_length : ℕ
sizeof_length = 8

-- The addresses at which `length` elements of `size` bytes are constructed, from the `i`th on.
abbrev pub construct_elements : ℕ → ℕ → ℕ → ℕ → List ℕ
construct_elements size array i zero = []
construct_elements size array i (suc length) =
    (array + i * size) ∷ construct_elements size array (suc i) length

-- `answer` is what `allocate` returns for a size and an alignment, `words` what the words of memory
-- hold: the array, the elements in order, and the memory. The length is added to a number and not to a
-- pointer to words, so the array begins one byte behind its length.
abbrev pub construct_array : (ℕ → ℕ → ℕ) → ℕ → ℕ → ℕ → (ℕ → ℕ) → Option (ℕ × List ℕ × (ℕ → ℕ))
construct_array answer size length align words =
    let memory = answer ((size * length + sizeof_length) % 2 ^ 64) align in
    let array = (memory + 1) % 2 ^ 64 in
    if memory == 0
    then none
    else some (
      array,
      construct_elements size array 0 length,
      λ q. if q == memory then length else words q,
    )

-- The loop of `destruct_array` from the index `i` down; its test `i >= 0` holds of every `size_t`.
pub destruct_elements : ℕ → ℕ → ℕ → ℕ → Option (List ℕ)
destruct_elements zero size array i = none
destruct_elements (suc fuel) size array i = do
  rest ← destruct_elements fuel size array ((i + 2 ^ 64 - 1) % 2 ^ 64)
  some ((array + i * size) ∷ rest)

-- The elements that are destructed, and the pointer that is deallocated.
abbrev pub destruct_array : ℕ → ℕ → ℕ → (ℕ → ℕ) → Option (List ℕ × ℕ)
destruct_array fuel size array words =
    let memory = (array + 2 ^ 64 - sizeof_length) % 2 ^ 64 in
    do
      destructed ← destruct_elements fuel size array ((words memory + 2 ^ 64 - 1) % 2 ^ 64)
      some (destructed, memory)

destruct_elements-endless : (fuel size array i : ℕ) → destruct_elements fuel size array i ≡ none
unfolding destruct_elements
destruct_elements-endless zero size array i = refl
destruct_elements-endless (suc fuel) size array i =
    rw (destruct_elements-endless fuel size array ((i + 2 ^ 64 - 1) % 2 ^ 64)) refl

-- No number of rounds is enough for `destruct_array`, whatever the length of the array.
destruct_array-endless :
    (fuel size array : ℕ) (words : ℕ → ℕ) → destruct_array fuel size array words ≡ none
destruct_array-endless fuel size array words =
    let memory = (array + 2 ^ 64 - sizeof_length) % 2 ^ 64 in
    rw (destruct_elements-endless fuel size array ((words memory + 2 ^ 64 - 1) % 2 ^ 64)) refl
