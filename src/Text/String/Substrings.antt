-- ===== src/Text/String/Substrings.antt =====
-- string.cpp: copies and substrings, which share the characters of a string.
use hologine.Base.{
  ℕ, zero, suc, ◌+◌, ◌-◌, ◌%◌, ◌^◌, ◌≡◌, ◌∙◌, refl, sym, ap, ◌≤◌, ◌<◌, inl, inr, true, none, some,
  List, [], ◌∷◌, length, take, drop, arith, Option-cases, take-nil,
}
use native.Mathlib.Decide.{ℕ_discrete}
use hologine.Text.StringIterator.{StringIterator}
use hologine.Text.String.{String, string_copy, substring, iterates, characters_of}
use hologine.Text.String.Buffers.{Heap, reference_buffer}
use hologine.Text.String.Contents.{contents, contents-some}

-- A copy reads the same characters.
string_copy-characters :
    (s t : String) (h h' : Heap)
    → string_copy s h ≡ some (t, h')
    → (t ≡ s) × (characters_of t h' ≡ characters_of s h) × (h'.memory ≡ h.memory)
unfolding string_copy reference_buffer
string_copy-characters s t h h' e = elim (ℕ_discrete s.storage_mode 0) [
  | no m ↦ (ground (arith, m, e), ground (arith, m, e), ground (arith, m, e))
  | yes m ↦ elim (ℕ_discrete s.pointer 0) [
    | yes z ↦ (ground (arith, m, z, e), ground (arith, m, z, e), ground (arith, m, z, e))
    | no z ↦ elim (Option-cases (h.buffers s.pointer)) [
      | inl k ↦ absurd (ground (arith, m, z, k, e))
      | inr (b, k) ↦
          (ground (arith, m, z, k, e), ground (arith, m, z, k, e), ground (arith, m, z, k, e))
    ]
  ]
]

take-drop-take {ℓ} :
    {A : Type ℓ} (m f n : ℕ) (xs : List A)
    → f + m ≤ n
    → take m (drop f (take n xs)) ≡ take m (drop f xs)
take-drop-take {A} m f n [] h = rw (take-nil {A = A} n) refl
take-drop-take {A} zero zero zero (x ∷ xs) h = refl
take-drop-take {A} (suc m) f zero (x ∷ xs) h = absurd (omega arith)
take-drop-take {A} zero (suc f) zero (x ∷ xs) h = absurd (omega arith)
take-drop-take {A} zero zero (suc n) (x ∷ xs) h = refl
take-drop-take {A} (suc m) zero (suc n) (x ∷ xs) h =
    ap (λ t. x ∷ t) (take-drop-take m zero n xs (omega arith))
take-drop-take {A} m (suc f) (suc n) (x ∷ xs) h = take-drop-take m f n xs (omega arith)

pub bytes-contents :
    (s : String) (h : Heap) (p : ℕ) (bytes : List ℕ)
    → characters_of s h ≡ some p
    → h.memory p ≡ some bytes
    → s.offset + s.length ≤ length bytes
    → contents s h ≡ some (take s.length (drop s.offset bytes))
bytes-contents s h p bytes e f g = ground (arith, e, f, g)

-- The substring between two iterators of a string that starts at its first character has the bytes
-- between their offsets; the string keeps its own.
pub substring-contents :
    (this : ℕ) (s t : String) (first last : StringIterator) (h h' : Heap) (xs : List ℕ)
    → iterates this first ≡ true
    → iterates this last ≡ true
    → string_copy s h ≡ some (t, h')
    → s.offset ≡ 0
    → contents s h ≡ some xs
    → first.current_offset ≤ last.current_offset
    → last.current_offset ≤ s.length
    → s.length < 2 ^ 64
    → (u : String) × (substring this s first last h ≡ some (none, u, h'))
      × (contents u h'
          ≡ some (take (last.current_offset - first.current_offset) (drop first.current_offset xs)))
      × (contents s h' ≡ some xs)
unfolding substring
substring-contents this s t first last h h' xs a b e o d up below small =
    let f = first.current_offset in
    let l = last.current_offset in
    let (p, bytes, at, there, fits, from) = contents-some s h xs d in
    let (same, seen, kept) = string_copy-characters s t h h' e in
    let size : (l + 2 ^ 64 - f) % 2 ^ 64 ≡ l - f = omega arith in
    let whole : xs ≡ take s.length bytes = rw (from, o) refl in
    let u : String = record t { offset = f; length = l - f } in
    let part : take (l - f) (drop f xs) ≡ take (l - f) (drop f bytes) =
      rw whole (take-drop-take (l - f) f s.length bytes (omega arith)) in
    let at' = seen ∙ at in
    let there' : h'.memory p ≡ some bytes = rw kept there in
    (
      u,
      ground (arith, a, b, e, size),
      bytes-contents u h' p bytes at' there' (omega arith) ∙ ap some (sym part),
      bytes-contents s h' p bytes (ap (λ r. characters_of r h') (sym same) ∙ at') there' fits
          ∙ ap some (sym from),
    )
