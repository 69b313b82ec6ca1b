-- ===== src/Text/StringBuilder/Pieces.antt =====
-- string_builder.cpp: the builders that a client reaches by appending strings.
use hologine.Base.{
  ℕ, ◌+◌, ◌%◌, ◌^◌, ◌≡◌, refl, sym, ◌∙◌, ap, ◌≢◌, inl, Bool, true, none, some, List, [], ◌∷◌, ◌++◌,
  length, arith,
}
use hologine.Text.String.{String, range}
use hologine.Text.String.Buffers.{Heap}
use hologine.Text.String.Contents.{contents, contents-some, length-contents}
use hologine.Text.StringBuilder.{
  StringBuilder, string_builder, request_buffer, append, get_character_buffer_data,
  sizeof_character_buffer,
}
use hologine.Text.StringBuilder.Chain.{IsBuilt, request_buffer-IsBuilt}

-- Appending a string that can be read, in memory that is free, adds its bytes behind the others and
-- leaves the member `length` alone.
pub append-IsBuilt :
    (answer : ℕ → ℕ) (stale bytes : List ℕ) (s : String) (h : Heap) (b : StringBuilder)
    (qs : List (ℕ × List ℕ)) (p : ℕ)
    → contents s h ≡ some bytes
    → answer ((sizeof_character_buffer + s.length) % 2 ^ 64) ≡ p
    → p ≢ 0
    → b.buffers p ≡ none
    → length stale ≡ s.length
    → IsBuilt b qs
    → (b' : StringBuilder) × (append answer stale s h b ≡ some (true, b'))
      × IsBuilt b' (qs ++ ((p, bytes) ∷ []))
      × (b'.length ≡ b.length)
unfolding append
append-IsBuilt answer stale bytes s h b qs p e at o free size built =
    let (q, characters, from, there, fits, is) = contents-some s h bytes e in
    let n = length-contents s h bytes e in
    let copied : range s.offset s.length characters ≡ some bytes = ground (arith, fits, is) in
    let (b', b'', f, g, w, l) =
      request_buffer-IsBuilt answer stale bytes b qs p (rw n at) o free (rw n size) built in
    let f' : request_buffer answer stale s.length b ≡ some (get_character_buffer_data p, b') =
      ap (λ k. request_buffer answer stale k b) (sym n) ∙ f in
    (b'', ground (arith, from, f', there, copied, g), w, l)

-- The builders that are reached from an empty one, with what was appended, and where.
pub data Reached (h : Heap) : StringBuilder → List (ℕ × List ℕ) → Type 0 where
  start : (stale : ℕ) (deallocate : Bool) → Reached h (string_builder stale deallocate) []
  more :
      (b b' : StringBuilder) (qs : List (ℕ × List ℕ)) (answer : ℕ → ℕ) (stale bytes : List ℕ)
      (s : String) (p : ℕ)
      → Reached h b qs
      → p ≢ 0
      → contents s h ≡ some bytes
      → answer ((sizeof_character_buffer + s.length) % 2 ^ 64) ≡ p
      → b.buffers p ≡ none
      → length stale ≡ s.length
      → append answer stale s h b ≡ some (true, b')
      → Reached h b' (qs ++ ((p, bytes) ∷ []))

pub Reached-IsBuilt :
    (h : Heap) (b : StringBuilder) (qs : List (ℕ × List ℕ)) → Reached h b qs → IsBuilt b qs
Reached-IsBuilt h b qs (start stale deallocate) = inl (refl, refl, refl)
Reached-IsBuilt h b qs (more b₀ b' rest answer stale bytes s p r o e at free size done) =
    let built = Reached-IsBuilt h b₀ rest r in
    let (b'', f, w, _) = append-IsBuilt answer stale bytes s h b₀ rest p e at o free size built in
    let same : b'' ≡ b = ground (arith, f, done) in rw (← same) w
