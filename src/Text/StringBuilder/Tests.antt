-- ===== src/Text/StringBuilder/Tests.antt =====
-- Runs of hologine/core/text/string_builder.cpp.
use hologine.Base.{◌≡◌, inl, refl, true, none, some, [], ◌∷◌, arith, ◌==◌, if◌then◌else◌}
use hologine.Text.String.{String, storage_unmanaged}
use hologine.Text.String.Buffers.{Heap, update}
use hologine.Text.String.Contents.{contents}
use hologine.Text.StringBuilder.{
  StringBuilder, string_builder, append, request_buffer, write_buffer, to_string, destroy,
}
use hologine.Text.StringBuilder.Chain.{IsBuilt, filled}
use hologine.Text.StringBuilder.Pieces.{append-IsBuilt, Reached, start, more}
use hologine.Text.StringBuilder.Result.{to_string_lem, destroy_lem}

abbrev heap : Heap
heap = record {
  buffers = λ p. none;
  memory = λ p. if p == 100 then some (97 ∷ 98 ∷ 0 ∷ []) else none;
}

abbrev ab : String
ab = record { storage_mode = storage_unmanaged; pointer = 100; offset = 0; length = 2 }

abbrev empty : StringBuilder
empty = string_builder 2 true

append-IsBuilt_example :
    (b' : StringBuilder) × (append (λ n. 400) (7 ∷ 7 ∷ []) ab heap empty ≡ some (true, b'))
    × IsBuilt b' ((400, 97 ∷ 98 ∷ []) ∷ [])
    × (b'.length ≡ 2)
append-IsBuilt_example =
    append-IsBuilt (λ n. 400) (7 ∷ 7 ∷ []) (97 ∷ 98 ∷ []) ab heap empty [] 400 refl refl
      (omega arith) refl refl (inl (refl, refl, refl))

-- The builder behind one string.
abbrev one : StringBuilder
one = record empty {
  buffer_list_head = 400;
  buffer_list_tail = 400;
  buffers =
      update (update (λ p. none) 400 (some (record { next = 0; length = 2; bytes = 7 ∷ 7 ∷ [] })))
        400 (some (filled 0 (97 ∷ 98 ∷ [])));
}

one-Reached : Reached heap one ((400, 97 ∷ 98 ∷ []) ∷ [])
unfolding append request_buffer write_buffer
one-Reached =
    more empty one [] (λ n. 400) (7 ∷ 7 ∷ []) (97 ∷ 98 ∷ []) ab 400 (start 2 true) (omega arith)
      refl refl refl refl refl

to_string_lem_example :
    (s : String) × (h' : Heap) × (to_string 2 16 500 0 (0 ∷ 0 ∷ []) one heap ≡ some (s, h'))
    × (h'.memory 500 ≡ some (97 ∷ 98 ∷ []))
    × (contents s h' ≡ some [])
to_string_lem_example =
    to_string_lem heap ((400, 97 ∷ 98 ∷ []) ∷ []) one 16 500 0 (0 ∷ 0 ∷ []) heap one-Reached refl
      (omega arith) refl (omega arith) (omega arith)

destroy_lem_example : destroy 2 one ≡ some (400 ∷ [])
destroy_lem_example = destroy_lem heap ((400, 97 ∷ 98 ∷ []) ∷ []) one one-Reached
