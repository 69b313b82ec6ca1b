-- ===== src/Text/StringBuilder/Chain.antt =====
-- string_builder.cpp: the list of buffers, as the characters that were put in.
use mathlib.Core.List.{append-nil}
use hologine.Base.{
  ℕ, ◌+◌, ◌-◌, ◌%◌, ◌^◌, ◌≡◌, refl, ◌≢◌, ◌⊎◌, inl, inr, Option, none, some, List, [], ◌∷◌, ◌++◌,
  length, drop, arith, drop-length,
}
use hologine.Text.String.Buffers.{update}
use hologine.Text.StringBuilder.{
  CharacterBuffer, StringBuilder, request_buffer, write_buffer, get_character_buffer_data,
  sizeof_character_buffer,
}

-- A buffer that is filled with `bytes`.
abbrev pub filled : ℕ → List ℕ → CharacterBuffer
filled next bytes = record { next = next; length = length bytes; bytes = bytes }

-- The buffers from `p` up to the pointer `e`, each with its address and its characters.
abbrev pub Segment : (ℕ → Option CharacterBuffer) → ℕ → List (ℕ × List ℕ) → ℕ → Type 0
Segment f p [] e = p ≡ e
Segment f p ((q, bytes) ∷ rest) e =
    (p ≡ q) × (q ≢ 0) × (n : ℕ) × (f q ≡ some (filled n bytes)) × Segment f n rest e

-- No buffer is at `x`.
abbrev pub Away : ℕ → List (ℕ × List ℕ) → Type 0
Away x [] = Unit
Away x ((q, bytes) ∷ rest) = (q ≢ x) × Away x rest

Segment-update :
    (f : ℕ → Option CharacterBuffer) (x : ℕ) (v : Option CharacterBuffer) (p e : ℕ)
    (qs : List (ℕ × List ℕ))
    → Away x qs
    → Segment f p qs e
    → Segment (update f x v) p qs e
Segment-update f x v p e [] a s = s
Segment-update f x v p e ((q, bytes) ∷ rest) (a, as') (i, o, n, h, s) =
    (i, o, n, ground (arith, a, h), Segment-update f x v n e rest as' s)

Segment-append :
    (f : ℕ → Option CharacterBuffer) (p e n : ℕ) (bytes : List ℕ) (qs : List (ℕ × List ℕ))
    → e ≢ 0
    → f e ≡ some (filled n bytes)
    → Segment f p qs e
    → Segment f p (qs ++ ((e, bytes) ∷ [])) n
Segment-append f p e n bytes [] o h s = (s, o, n, h, refl)
Segment-append f p e n bytes ((q, b) ∷ rest) o h (i, z, m, k, s) =
    (i, z, m, k, Segment-append f m e n bytes rest o h s)

free-Away :
    (f : ℕ → Option CharacterBuffer) (x p e : ℕ) (qs : List (ℕ × List ℕ))
    → f x ≡ none
    → Segment f p qs e
    → Away x qs
free-Away f x p e [] h s = tt
free-Away f x p e ((q, bytes) ∷ rest) h (i, o, n, k, s) =
    (λ z. absurd (ground (arith, z, h, k)), free-Away f x n e rest h s)

Away-append :
    (x q : ℕ) (bytes : List ℕ) (qs : List (ℕ × List ℕ))
    → q ≢ x
    → Away x qs
    → Away x (qs ++ ((q, bytes) ∷ []))
Away-append x q bytes [] n a = (n, a)
Away-append x q bytes ((r, b) ∷ rest) n (m, a) = (m, Away-append x q bytes rest n a)

-- A builder over a list of buffers: none, or some and the last one, at the tail.
abbrev pub IsBuilt : StringBuilder → List (ℕ × List ℕ) → Type 0
IsBuilt b qs =
    ((qs ≡ []) × (b.buffer_list_head ≡ 0) × (b.buffer_list_tail ≡ 0))
    ⊎ ((front : List (ℕ × List ℕ)) × (bytes : List ℕ) × (qs
          ≡ front ++ ((b.buffer_list_tail, bytes) ∷ []))
        × (b.buffer_list_tail ≢ 0)
        × Away b.buffer_list_tail front
        × Segment b.buffers b.buffer_list_head front b.buffer_list_tail
        × (b.buffers b.buffer_list_tail ≡ some (filled 0 bytes)))

-- The list from the head to the null pointer.
pub IsBuilt-Segment :
    (b : StringBuilder) (qs : List (ℕ × List ℕ))
    → IsBuilt b qs
    → Segment b.buffers b.buffer_list_head qs 0
IsBuilt-Segment b qs (inl (e, h, t)) = rw e h
IsBuilt-Segment b qs (inr (front, bytes, e, t, a, s, h)) =
    rw e (Segment-append b.buffers b.buffer_list_head b.buffer_list_tail 0 bytes front t h s)

written :
    (b : StringBuilder) (p n : ℕ) (stale bytes : List ℕ)
    → b.buffers p ≡ some (record { next = n; length = length bytes; bytes = stale })
    → length stale ≡ length bytes
    → write_buffer (get_character_buffer_data p) bytes b
      ≡ some (record b { buffers = update b.buffers p (some (filled n bytes)) })
unfolding write_buffer
written b p n stale bytes e size =
    let at : p + 16 - 16 ≡ p = omega arith in
    let none_left : drop (length bytes) stale ≡ [] =
      drop-length stale (length bytes) (omega arith) in
    let whole : bytes ++ drop (length bytes) stale ≡ bytes = rw none_left (append-nil bytes) in
    ground (arith, at, e, whole)

-- Where a request leaves the buffers `f`, and then those with the characters of the new one.
abbrev linked : StringBuilder → ℕ → List ℕ → ℕ → List ℕ → StringBuilder
linked b p stale size old = record b {
  buffer_list_tail = p;
  buffers =
      update (update b.buffers p (some (record { next = 0; length = size; bytes = stale })))
        b.buffer_list_tail (some (filled p old));
}

linked-IsBuilt :
    (b : StringBuilder) (p : ℕ) (stale bytes old : List ℕ) (front : List (ℕ × List ℕ))
    → p ≢ 0
    → b.buffers p ≡ none
    → b.buffer_list_tail ≢ 0
    → Away b.buffer_list_tail front
    → Segment b.buffers b.buffer_list_head front b.buffer_list_tail
    → b.buffers b.buffer_list_tail ≡ some (filled 0 old)
    → let b' = linked b p stale (length bytes) old in
      IsBuilt
        (record b' { buffers = update b'.buffers p (some (filled 0 bytes)) })
        ((front ++ ((b.buffer_list_tail, old) ∷ [])) ++ ((p, bytes) ∷ []))
linked-IsBuilt b p stale bytes old front o free t a s h =
    let b' = linked b p stale (length bytes) old in
    let away = free-Away b.buffers p b.buffer_list_head b.buffer_list_tail front free s in
    let apart : b.buffer_list_tail ≢ p = λ z. absurd (ground (arith, z, free, h)) in
    let made =
      update b.buffers p (some (record { next = 0; length = length bytes; bytes = stale })) in
    let final = update b'.buffers p (some (filled 0 bytes)) in
    let kept =
      Segment-update b'.buffers p (some (filled 0 bytes)) b.buffer_list_head b.buffer_list_tail
        front away
        (Segment-update made b.buffer_list_tail (some (filled p old)) b.buffer_list_head
          b.buffer_list_tail front a
          (Segment-update b.buffers p
            (some (record { next = 0; length = length bytes; bytes = stale })) b.buffer_list_head
            b.buffer_list_tail front away s)) in
    inr (
      front ++ ((b.buffer_list_tail, old) ∷ []),
      bytes,
      refl,
      o,
      Away-append p b.buffer_list_tail old front apart away,
      Segment-append final b.buffer_list_head b.buffer_list_tail p old front t
          (ground (arith, apart)) kept,
      ground arith,
    )

-- A request for memory that is free, filled by the caller, adds its characters behind the others.
pub request_buffer-IsBuilt :
    (answer : ℕ → ℕ) (stale bytes : List ℕ) (b : StringBuilder) (qs : List (ℕ × List ℕ)) (p : ℕ)
    → answer ((sizeof_character_buffer + length bytes) % 2 ^ 64) ≡ p
    → p ≢ 0
    → b.buffers p ≡ none
    → length stale ≡ length bytes
    → IsBuilt b qs
    → (b' : StringBuilder) × (b'' : StringBuilder) × (request_buffer answer stale (length bytes) b
        ≡ some (get_character_buffer_data p, b'))
      × (write_buffer (get_character_buffer_data p) bytes b' ≡ some b'')
      × IsBuilt b'' (qs ++ ((p, bytes) ∷ []))
      × (b''.length ≡ b.length)
unfolding request_buffer write_buffer
request_buffer-IsBuilt answer stale bytes b qs p at o free size (inl (e, h, t)) =
    let b' = record b {
      buffer_list_head = p;
      buffer_list_tail = p;
      buffers =
          update b.buffers p (some (record { next = 0; length = length bytes; bytes = stale }));
    } in
    (
      b',
      record b' { buffers = update b'.buffers p (some (filled 0 bytes)) },
      ground (arith, at, o, t),
      written b' p 0 stale bytes (ground arith) size,
      inr ([], bytes, rw e refl, o, tt, refl, ground arith),
      refl,
    )
request_buffer-IsBuilt answer stale bytes b qs p at o free size (inr (front, old, e, t, a, s, h)) =
    let b' = linked b p stale (length bytes) old in
    let apart : b.buffer_list_tail ≢ p = λ z. absurd (ground (arith, z, free, h)) in
    (
      b',
      record b' { buffers = update b'.buffers p (some (filled 0 bytes)) },
      ground (arith, at, o, t, h, apart),
      written b' p 0 stale bytes (ground (arith, apart)) size,
      rw e (linked-IsBuilt b p stale bytes old front o free t a s h),
      refl,
    )
