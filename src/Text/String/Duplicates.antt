-- ===== src/Text/String/Duplicates.antt =====
-- string.cpp: `duplicate`.
use hologine.Base.{
  ℕ, ◌∙◌, ◌≡◌, refl, ap, ◌≢◌, none, some, List, [], ◌∷◌, length, arith, take-length,
}
use hologine.Text.String.{
  String, storage_managed, storage_unmanaged, duplicate, duplicate_with, string_unmanaged,
  string_range, range,
}
use hologine.Text.String.Buffers.{Heap, StringBuffer, c_string, construct_buffer, update}
use hologine.Text.String.Release.{made}
use hologine.Text.String.Contents.{contents, contents-some, length-contents}
use hologine.Text.String.Substrings.{bytes-contents}

abbrev pub HasNoZero : List ℕ → Type 0
HasNoZero [] = Unit
HasNoZero (x ∷ xs) = (x ≢ 0) × HasNoZero xs

c_string-none : (xs : List ℕ) → HasNoZero xs → c_string xs ≡ none
unfolding c_string
c_string-none [] h = refl
c_string-none (x ∷ xs) (h, t) = ground (arith, h, c_string-none xs t)

-- Both overloads read behind the end of the characters of a managed string that is not empty and has
-- no zero byte: they look for the end of a C string in a buffer that has none.
pub duplicate_managed :
    (stale object block allocator : ℕ) (s : String) (h : Heap) (b : StringBuffer) (bytes : List ℕ)
    → s.storage_mode ≡ storage_managed
    → s.length ≢ 0
    → h.buffers s.pointer ≡ some b
    → h.memory b.characters ≡ some bytes
    → HasNoZero bytes
    → (duplicate stale object block s h ≡ none)
      × (duplicate_with stale object block allocator s h ≡ none)
unfolding duplicate duplicate_with string_unmanaged
duplicate_managed stale object block allocator s h b bytes m n e f z =
    let c = c_string-none bytes z in (ground (arith, m, n, e, f, c), ground (arith, m, n, e, f, c))

-- The duplicate of an unmanaged string that is not empty has the same bytes in a buffer of its own,
-- if the allocator answers and the range constructor happens to find the mode of a managed string
-- in the member that it leaves alone.
pub duplicate_with-contents :
    (object block allocator : ℕ) (s : String) (h : Heap) (xs : List ℕ)
    → s.storage_mode ≡ storage_unmanaged
    → s.length ≢ 0
    → contents s h ≡ some xs
    → object ≢ 0
    → block ≢ 0
    → (t : String) × (h' : Heap) × (duplicate_with storage_managed object block allocator s h
        ≡ some (t, h'))
      × (contents t h' ≡ some xs)
      × (t.storage_mode ≡ storage_managed)
      × (h'.buffers t.pointer ≡ some (made block allocator xs))
unfolding duplicate_with string_range construct_buffer
duplicate_with-contents object block allocator s h xs m n e o b =
    let (p, bytes, at, there, fits, from) = contents-some s h xs e in
    let size = length-contents s h xs e in
    let t : String = record {
      storage_mode = storage_managed;
      pointer = object;
      offset = 0;
      length = length xs;
    } in
    let h' : Heap = record {
      buffers = update h.buffers object (some (made block allocator xs));
      memory = update h.memory block (some xs);
    } in
    let copied : range s.offset s.length bytes ≡ some xs = ground (arith, fits, from) in
    let here : h.memory s.pointer ≡ some bytes = ground (arith, m, at, there) in
    (
      t,
      h',
      ground (arith, m, n, here, copied, o, b),
      bytes-contents t h' block xs (ground arith) (ground arith) (omega arith)
          ∙ ap some (take-length xs (length xs) (omega arith)),
      refl,
      ground arith,
    )
