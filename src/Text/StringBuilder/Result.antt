-- ===== src/Text/StringBuilder/Result.antt =====
-- string_builder.cpp: the string that a builder makes.
use mathlib.Core.List.{append_assoc, append-nil}
use hologine.Base.{
  ℕ, zero, suc, ◌+◌, ◌≡◌, refl, sym, ◌∙◌, ap, ◌≢◌, ◌≤◌, ◌<◌, some, List, [], ◌∷◌, ◌++◌, length,
  arith, if◌then◌else◌, take, drop, splice, length-splice, take-append, take-length, length-append,
  length-take,
}
use hologine.Text.String.{String, storage_managed, string_default}
use hologine.Text.String.Buffers.{Heap, StringBuffer, update}
use hologine.Text.String.Contents.{contents}
use hologine.Text.StringBuilder.{StringBuilder, to_string, copy_buffers, release_buffers, destroy}
use hologine.Text.StringBuilder.Chain.{Segment, IsBuilt-Segment}
use hologine.Text.StringBuilder.Pieces.{Reached, Reached-IsBuilt}

-- The bytes of the buffers, one after the other.
abbrev pub joined : List (ℕ × List ℕ) → List ℕ
joined [] = []
joined ((q, bytes) ∷ rest) = bytes ++ joined rest

take-splice :
    (xs ys : List ℕ) (i : ℕ)
    → i + length ys ≤ length xs
    → take (i + length ys) (splice xs i ys) ≡ take i xs ++ ys
take-splice xs ys i h =
    let e : splice xs i ys ≡ (take i xs ++ ys) ++ drop (i + length ys) xs =
      sym (append_assoc (take i xs) ys (drop (i + length ys) xs)) in
    rw e (
      take-append (take i xs ++ ys) (drop (i + length ys) xs) (i + length ys)
        (omega (arith, length-append (take i xs) ys, length-take i xs)))

-- The loop copies the buffers one behind the other.
copy_buffers-Segment :
    (b : StringBuilder) (qs : List (ℕ × List ℕ)) (fuel current index : ℕ) (target : List ℕ)
    → length qs < fuel
    → Segment b.buffers current qs 0
    → index + length (joined qs) ≤ length target
    → (result : List ℕ) × (copy_buffers fuel current index target b ≡ some result)
      × (length result ≡ length target)
      × (take (index + length (joined qs)) result ≡ take index target ++ joined qs)
unfolding copy_buffers
copy_buffers-Segment b qs zero current index target m s fits = absurd (omega arith)
copy_buffers-Segment b [] (suc fuel) current index target m s fits =
    let e : index + 0 ≡ index = omega arith in
    (target, ground (arith, s), refl, rw (e, append-nil (take index target)) refl)
copy_buffers-Segment b ((q, bytes) ∷ rest) (suc fuel) current index target m (i, o, n, h, s) fits =
    let l = length-append bytes (joined rest) in
    let room : index + length bytes ≤ length target = omega arith in
    let size = length-splice target index bytes room in
    let (r, e, k, w) =
      copy_buffers-Segment b rest fuel n (index + length bytes) (splice target index bytes)
        (omega arith) s (omega arith) in
    let sum : index + length (bytes ++ joined rest) ≡ index + length bytes + length (joined rest) =
      omega arith in
    (
      r,
      ground (arith, i, o, h, room, e),
      k ∙ size,
      rw sum (
          w
          ∙ ap (λ t. t ++ joined rest) (take-splice target bytes index room)
          ∙ append_assoc (take index target) bytes (joined rest)),
    )

-- If the member `length`, which nothing assigns, happens to hold the number of bytes that were
-- appended, the new buffer holds these bytes in their order; the string that refers to it is empty
-- all the same, since its own length is not assigned.
pub to_string_lem :
    (h₀ : Heap) (qs : List (ℕ × List ℕ)) (b : StringBuilder) (object block owner : ℕ)
    (stale : List ℕ) (h : Heap)
    → Reached h₀ b qs
    → b.length ≡ length (joined qs)
    → b.length ≢ 0
    → length stale ≡ b.length
    → object ≢ 0
    → block ≢ 0
    → (s : String) × (h' : Heap) × (to_string (suc (length qs)) object block owner stale b h
        ≡ some (s, h'))
      × (h'.memory block ≡ some (joined qs))
      × (contents s h' ≡ some [])
unfolding to_string
to_string_lem h₀ qs b object block owner stale h r size n room o k =
    let (characters, e, l, w) =
      copy_buffers-Segment b qs (suc (length qs)) b.buffer_list_head 0 stale (omega arith)
        (IsBuilt-Segment b qs (Reached-IsBuilt h₀ b qs r)) (omega (arith, size, room)) in
    let all : characters ≡ joined qs =
      sym (take-length characters (0 + length (joined qs)) (omega (arith, l, room, size))) ∙ w in
    let s = record string_default { storage_mode = storage_managed; pointer = object } in
    let made : StringBuffer = record {
      characters = block;
      length = b.length;
      reference_count = 1;
      allocator = owner;
    } in
    let h' : Heap = record {
      buffers = update h.buffers object (some made);
      memory = update h.memory block (some characters);
    } in
    (s, h', ground (arith, n, o, k, e), ground (arith, all), ground arith)

-- The addresses of the buffers.
abbrev pub pointers : List (ℕ × List ℕ) → List ℕ
pointers [] = []
pointers ((q, bytes) ∷ rest) = q ∷ pointers rest

release_buffers-Segment :
    (b : StringBuilder) (qs : List (ℕ × List ℕ)) (fuel current : ℕ)
    → length qs < fuel
    → Segment b.buffers current qs 0
    → release_buffers fuel current b ≡ some (pointers qs)
unfolding release_buffers
release_buffers-Segment b qs zero current m s = absurd (omega arith)
release_buffers-Segment b [] (suc fuel) current m s = ground (arith, s)
release_buffers-Segment b ((q, bytes) ∷ rest) (suc fuel) current m (i, o, n, h, s) =
    let e = release_buffers-Segment b rest fuel n (omega arith) s in ground (arith, i, o, h, e)

-- The loop of the destructor ends, and gives back each buffer once, in order, if the builder is to
-- deallocate; otherwise nothing is given back.
pub destroy_lem :
    (h : Heap) (qs : List (ℕ × List ℕ)) (b : StringBuilder)
    → Reached h b qs
    → destroy (suc (length qs)) b ≡ some (if b.deallocate_buffer_list then pointers qs else [])
unfolding destroy
destroy_lem h qs b r =
    let e =
      release_buffers-Segment b qs (suc (length qs)) b.buffer_list_head (omega arith)
        (IsBuilt-Segment b qs (Reached-IsBuilt h b qs r)) in
    ground (arith, e)
