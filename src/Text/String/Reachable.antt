-- ===== src/Text/String/Reachable.antt =====
-- string.cpp: what every sequence of operations on strings keeps.
use hologine.Base.{
  >>=-eq-some, ℕ, ◌+◌, ◌-◌, ◌%◌, ◌^◌, ◌≡◌, refl, ◌≢◌, ◌<◌, inl, inr, false, not, ◌||◌, Option, none,
  some, List, [], ◌∷◌, ◌++◌, length, set, get_elem?, arith, ◌>>=◌, Option-cases, Bool-cases,
  length-append, length-set, get_elem?-set_other,
}
use native.Mathlib.Decide.{ℕ_discrete}
use hologine.Text.StringIterator.{StringIterator}
use hologine.Text.String.{
  substring, string_default, iterates, String, storage_managed, storage_unmanaged, string_unmanaged,
  string_managed,
}
use hologine.Text.String.Buffers.{Heap, c_string}
use hologine.Text.String.Release.{construct_buffer-IsBalanced}
use hologine.Text.String.Owners.{
  refers, same-IsBalanced, assign-IsBalanced, string_copy-IsBalanced, references, references-append,
  references-set, references-le, references-get,
}
use hologine.Text.String.Runs.{
  Program, Operation, wrap, make, copy, cut, give, drop_string, live, with_string, taken,
  is_refused, IsAnswered, AreAnswered, execute, run_strings, IsOwned, live-get, Does, idle, added,
  modes-set, copy-Does, drop-Does,
}

give-Does : (i j : ℕ) (w : Program) → IsOwned w → length w.strings + 1 < 2 ^ 64 → Does (give i j) w
unfolding execute
give-Does i j w v fits = elim (Option-cases (live w i)) [
  | inl e ↦ idle (give i j) w (ground (arith, e)) v
  | inr (this, e) ↦ elim (Option-cases (live w j)) [
    | inl f ↦ idle (give i j) w (ground (arith, e, f)) v
    | inr (other, f) ↦ elim (ℕ_discrete i j) [
      | yes y ↦ idle (give i j) w (ground (arith, e, f, y)) v
      | no n ↦
          let at = live-get w i this e in
          let left = set w.strings i none in
          let there : get_elem? left j ≡ some (some other) =
            rw (get_elem?-set_other w.strings i j none n) (live-get w j other f) in
          let less : (q : ℕ) → references q left + refers q this ≡ references q w.strings =
            λ q. omega (arith, references-set q w.strings i (some this) none at) in
          let (h, g, b) =
            assign-IsBalanced this other w.heap (λ q. references q w.strings)
              (λ q. references q left) (λ q. references q (set w.strings i (some other)))
              (v.modes i this e) (v.modes j other f) v.balanced less
              (λ q. references-get q left j other there)
              (omega (arith, fits, references-le other.pointer left, length-set w.strings i none))
              (λ q.
                omega (arith, less q, references-set q w.strings i (some this) (some other) at)) in
          (
            record { strings = set w.strings i (some other); heap = h },
            ground (arith, e, f, n, g),
            record {
              balanced = b;
              modes =
                  modes-set w.strings i (some other) w.heap h v.modes (λ r z.
                    (let k : other ≡ r = ground (arith, z) in rw (← k) (v.modes j other f)));
            },
            omega (arith, length-set w.strings i (some other)),
          )
    ]
  ]
]

string_unmanaged-HasMode :
    (p : ℕ) (h : Heap) (s : String)
    → string_unmanaged p h ≡ some s
    → s.storage_mode ≡ storage_unmanaged
unfolding string_unmanaged
string_unmanaged-HasMode p h s e =
    let (bytes, _, f) = >>=-eq-some (h.memory p) _ e in
    let (c, _, g) = >>=-eq-some (c_string bytes) _ f in ground (arith, g)

wrap-Does : (p : ℕ) (w : Program) → IsOwned w → Does (wrap p) w
unfolding execute
wrap-Does p w v = elim (Option-cases (string_unmanaged p w.heap)) [
  | inl e ↦ idle (wrap p) w (ground (arith, e)) v
  | inr (s, e) ↦
      let m = string_unmanaged-HasMode p w.heap s e in
      (
        with_string w.strings s w.heap,
        ground (arith, e),
        added w s w.heap v (inr m) (
            same-IsBalanced w.heap (λ q. references q w.strings)
              (λ q. references q (w.strings ++ (some s ∷ [])))
              (λ q. (let z = references-append q w.strings s in ground (arith, m, z))) v.balanced),
        omega (arith, length-append w.strings (some s ∷ [])),
      )
]

taken-none {ℓ} : {A : Type ℓ} (o : Option A) → taken o ≡ false → o ≡ none
taken-none none h = refl
taken-none (some a) h = cc

accepted :
    (object block : ℕ) (h : Heap)
    → is_refused object block h ≡ false
    → (h.buffers object ≡ none) × (h.memory block ≡ none)
accepted object block h e = (
  taken-none (h.buffers object) (ground (arith, e)),
  taken-none (h.memory block) (ground (arith, e)),
)

make-Does :
    (object block allocator other : ℕ) (w : Program)
    → object ≢ 0
    → block ≢ 0
    → IsOwned w
    → Does (make object block allocator other) w
unfolding execute string_managed
make-Does object block allocator other w o b v =
    elim (Bool-cases (is_refused object block w.heap)) [
      | inl e ↦ idle (make object block allocator other) w (ground (arith, e)) v
      | inr e ↦ elim (Option-cases (w.heap.memory other >>= c_string)) [
        | inl f ↦ idle (make object block allocator other) w (ground (arith, e, f)) v
        | inr (c, f) ↦
            let (free, unused) = accepted object block w.heap e in
            let (bytes, there, g) = >>=-eq-some (w.heap.memory other) c_string f in
            let s : String = record {
              storage_mode = storage_managed;
              pointer = object;
              offset = 0;
              length = length c;
            } in
            let (h, k, u, known) =
              construct_buffer-IsBalanced object block allocator c w.heap
                (λ q. references q w.strings) (λ q. references q (w.strings ++ (some s ∷ []))) o b
                free unused v.balanced (λ q. references-append q w.strings s) in
            (
              with_string w.strings s h,
              ground (arith, e, there, g, k, known),
              added w s h v (inl (refl, o)) u,
              omega (arith, length-append w.strings (some s ∷ [])),
            )
      ]
    ]

cut-Does :
    (i : ℕ) (first last : StringIterator) (w : Program)
    → IsOwned w
    → length w.strings + 1 < 2 ^ 64
    → Does (cut i first last) w
unfolding execute substring
cut-Does i first last w v fits = elim (Option-cases (live w i)) [
  | inl e ↦ idle (cut i first last) w (ground (arith, e)) v
  | inr (s, e) ↦ elim (Bool-cases (not (iterates i first) || not (iterates i last))) [
    | inl n ↦ (
      with_string w.strings string_default w.heap,
      ground (arith, e, n),
      added w string_default w.heap v (inr refl) (
          same-IsBalanced w.heap (λ q. references q w.strings)
            (λ q. references q (w.strings ++ (some string_default ∷ [])))
            (λ q. (let z = references-append q w.strings string_default in ground (arith, z)))
            v.balanced),
      omega (arith, length-append w.strings (some string_default ∷ [])),
    )
    | inr n ↦
        let t = record s {
          offset = first.current_offset;
          length = (last.current_offset + 2 ^ 64 - first.current_offset) % 2 ^ 64;
        } in
        let m = v.modes i s e in
        let (h, f, b, _) =
          string_copy-IsBalanced s w.heap (λ q. references q w.strings)
            (λ q. references q (w.strings ++ (some t ∷ []))) m v.balanced
            (λ q. references-get q w.strings i s (live-get w i s e))
            (omega (arith, fits, references-le s.pointer w.strings))
            (λ q. references-append q w.strings t) in
        (
          with_string w.strings t h,
          ground (arith, e, n, f),
          added w t h v m b,
          omega (arith, length-append w.strings (some t ∷ [])),
        )
  ]
]

execute-Does :
    (o : Operation) (w : Program)
    → IsAnswered o
    → IsOwned w
    → length w.strings + 1 < 2 ^ 64
    → Does o w
execute-Does (wrap p) w a v fits = wrap-Does p w v
execute-Does (make object block allocator other) w (o, b) v fits =
    make-Does object block allocator other w o b v
execute-Does (copy i) w a v fits = copy-Does i w v fits
execute-Does (cut i first last) w a v fits = cut-Does i first last w v fits
execute-Does (give i j) w a v fits = give-Does i j w v fits
execute-Does (drop_string i) w a v fits = drop-Does i w v

-- On fewer than 2 ^ 64 strings, and if the allocator answers no request with a null pointer, every
-- sequence of operations (C strings wrapped or copied, copies, substrings, assignments and
-- destructions) runs without a fault, and behind it each buffer counts the strings that refer to
-- it: a buffer exists with its characters as long as a string refers to it and no longer.
-- Operations are passed over that use a string that does not live or a C string that does not end,
-- that assign a string to itself, or that an allocator answers with memory in use.
pub run_strings-IsOwned :
    (os : List Operation) (w : Program)
    → AreAnswered os
    → IsOwned w
    → length w.strings + length os < 2 ^ 64
    → (w' : Program) × (run_strings os w ≡ some w') × IsOwned w'
unfolding run_strings
run_strings-IsOwned [] w a v fits = (w, refl, v)
run_strings-IsOwned (o ∷ os) w (a, answered) v fits =
    let (w₁, e, v₁, l) = execute-Does o w a v (omega arith) in
    let (w', f, v') = run_strings-IsOwned os w₁ answered v₁ (omega arith) in
    (w', ground (arith, e, f), v')
