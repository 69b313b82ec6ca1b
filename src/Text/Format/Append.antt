-- ===== src/Text/Format/Append.antt =====
-- format.hpp: numbers that are appended to a builder.
use hologine.Base.{
  ℕ, ◌+◌, ◌%◌, ◌^◌, ◌≡◌, ◌∙◌, ap, sym, ◌≢◌, true, Option, none, some, List, [], ◌∷◌, ◌++◌, length,
  arith, length-append,
}
use hologine.Text.Format.{append_format}
use hologine.Text.StringBuilder.{
  StringBuilder, request_buffer, get_character_buffer_data, sizeof_character_buffer,
}
use hologine.Text.StringBuilder.Chain.{IsBuilt, request_buffer-IsBuilt}

-- A number that `snprintf` can print, as text that is not empty, adds this text to the builder,
-- and behind it the zero byte that `snprintf` writes, which becomes part of the string.
pub append_format-IsBuilt :
    (print : List ℕ → Option (List ℕ)) (answer : ℕ → ℕ) (stale text format_string : List ℕ)
    (b : StringBuilder) (qs : List (ℕ × List ℕ)) (p : ℕ)
    → print format_string ≡ some text
    → length text ≢ 0
    → answer ((sizeof_character_buffer + (length text + 1)) % 2 ^ 64) ≡ p
    → p ≢ 0
    → b.buffers p ≡ none
    → length stale ≡ length text + 1
    → IsBuilt b qs
    → (b' : StringBuilder) × (append_format print answer stale format_string b ≡ some (true, b'))
      × IsBuilt b' (qs ++ ((p, text ++ (0 ∷ [])) ∷ []))
unfolding append_format
append_format-IsBuilt print answer stale text format_string b qs p e n at o free size built =
    let bytes = text ++ (0 ∷ []) in
    let l : length bytes ≡ length text + 1 = omega (arith, length-append text (0 ∷ [])) in
    let (b', b'', f, g, w, _) =
      request_buffer-IsBuilt answer stale bytes b qs p (rw l at) o free (rw l size) built in
    let f' : request_buffer answer stale (length text + 1) b
        ≡ some (get_character_buffer_data p, b') =
      ap (λ k. request_buffer answer stale k b) (sym l) ∙ f in
    (b'', ground (arith, e, n, f', g), w)
