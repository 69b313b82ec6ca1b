-- ===== src/Text/String/Runs.antt =====
-- string.cpp: sequences of operations on the strings of a program.
use hologine.Base.{
  ℕ, zero, suc, ◌+◌, ◌^◌, ◌≡◌, ◌≢◌, ◌≤◌, ◌<◌, inl, inr, Bool, true, false, not, ◌||◌, Option, none,
  some, List, [], ◌∷◌, ◌++◌, length, set, get_elem?, arith, ◌==◌, if◌then◌else◌, ◌>>=◌,
  Option-cases, length-append, length-set,
}
use hologine.Text.StringIterator.{StringIterator}
use hologine.Text.String.{
  substring, String, string_unmanaged, string_managed, string_copy, destroy, assign,
}
use hologine.Text.String.Buffers.{Heap, c_string}
use hologine.Text.String.Counts.{IsBalanced}
use hologine.Text.String.Owners.{
  HasMode, string_copy-IsBalanced, destroy-IsBalanced, references, references-append,
  references-set, references-le, references-get,
}

-- The strings that a program has made, at their addresses; `none` is one that is destroyed.
pub record Program : Type 0 where
  pub strings : List (Option String)
  pub heap : Heap

pub data Operation : Type 0 where
  wrap : ℕ → Operation
  make : ℕ → ℕ → ℕ → ℕ → Operation
  copy : ℕ → Operation
  cut : ℕ → StringIterator → StringIterator → Operation
  give : ℕ → ℕ → Operation
  drop_string : ℕ → Operation

abbrev pub live : Program → ℕ → Option String
live w i = elim (get_elem? w.strings i) [ none ↦ none | some s ↦ s ]

abbrev pub with_string : List (Option String) → String → Heap → Program
with_string strings s h = record { strings = strings ++ (some s ∷ []); heap = h }

abbrev pub taken {ℓ} : {A : Type ℓ} → Option A → Bool
taken none = false
taken (some a) = true

-- The answers of an allocator that are not memory that is free, for the buffer and its characters.
abbrev pub is_refused : ℕ → ℕ → Heap → Bool
is_refused object block h = taken (h.buffers object) || taken (h.memory block)

-- A program passes C strings that end, uses strings that live, does not assign a string to itself,
-- and its allocator answers with memory that is free, or with null pointers; other operations are
-- left out.
unfoldable pub execute : Operation → Program → Option Program
execute (wrap p) w = elim (string_unmanaged p w.heap) [
  | none ↦ some w
  | some s ↦ some (with_string w.strings s w.heap)
]
execute (make object block allocator other) w =
    if is_refused object block w.heap || not (taken (w.heap.memory other >>= c_string))
    then some w
    else (do
      (s, h) ← string_managed object block allocator other w.heap
      some (with_string w.strings s h))
execute (copy i) w = elim (live w i) [
  | none ↦ some w
  | some s ↦ do (t, h) ← string_copy s w.heap; some (with_string w.strings t h)
]
execute (cut i first last) w = elim (live w i) [
  | none ↦ some w
  | some s ↦ do (e, t, h) ← substring i s first last w.heap; some (with_string w.strings t h)
]
execute (give i j) w = elim (live w i) [
  | none ↦ some w
  | some this ↦ elim (live w j) [
    | none ↦ some w
    | some other ↦ if i == j then some w else (do
      (t, h) ← assign this other w.heap
      some (record { strings = set w.strings i (some t); heap = h }))
  ]
]
execute (drop_string i) w = elim (live w i) [
  | none ↦ some w
  | some s ↦ do h ← destroy s w.heap; some (record { strings = set w.strings i none; heap = h })
]

unfoldable pub run_strings : List Operation → Program → Option Program
unfolding execute
run_strings [] w = some w
run_strings (o ∷ os) w = do w' ← execute o w; run_strings os w'

-- The allocator answers neither request of `make` with a null pointer.
abbrev pub IsAnswered : Operation → Type 0
IsAnswered (wrap p) = Unit
IsAnswered (make object block allocator other) = (object ≢ 0) × (block ≢ 0)
IsAnswered (copy i) = Unit
IsAnswered (cut i first last) = Unit
IsAnswered (give i j) = Unit
IsAnswered (drop_string i) = Unit

abbrev pub AreAnswered : List Operation → Type 0
AreAnswered [] = Unit
AreAnswered (o ∷ os) = IsAnswered o × AreAnswered os

-- Each buffer counts the strings that refer to it, exists while there is one, and is gone otherwise.
pub record IsOwned (w : Program) : Type 0 where
  pub balanced : IsBalanced w.heap (λ q. references q w.strings)
  pub modes : (i : ℕ) (s : String) → live w i ≡ some s → HasMode s

pub live-get :
    (w : Program) (i : ℕ) (s : String) → live w i ≡ some s → get_elem? w.strings i ≡ some (some s)
live-get w i s h = elim (Option-cases (get_elem? w.strings i)) [
  | inl e ↦ absurd (ground (arith, e, h))
  | inr (o, e) ↦ ground (arith, e, h)
]

abbrev pub Does : Operation → Program → Type 0
Does o w =
    (w' : Program) × (execute o w ≡ some w')
    × IsOwned w'
    × (length w'.strings ≤ suc (length w.strings))

pub idle : (o : Operation) (w : Program) → execute o w ≡ some w → IsOwned w → Does o w
idle o w e v = (w, e, v, omega arith)

pub modes-append :
    (strings : List (Option String)) (h h' : Heap) (t : String)
    → ((i : ℕ) (s : String) → live (record { strings = strings; heap = h }) i ≡ some s → HasMode s)
    → HasMode t
    → (i : ℕ) (s : String) → live (with_string strings t h') i ≡ some s
    → HasMode s
modes-append [] h h' t old new zero s e = let z : t ≡ s = ground (arith, e) in rw (← z) new
modes-append [] h h' t old new (suc i) s e = absurd (ground (arith, e))
modes-append (x ∷ xs) h h' t old new zero s e = old zero s e
modes-append (x ∷ xs) h h' t old new (suc i) s e =
    modes-append xs h h' t (λ j r f. old (suc j) r f) new i s e

pub modes-set :
    (strings : List (Option String)) (k : ℕ) (o : Option String) (h h' : Heap)
    → ((i : ℕ) (s : String) → live (record { strings = strings; heap = h }) i ≡ some s → HasMode s)
    → ((s : String) → o ≡ some s → HasMode s)
    → (i : ℕ) (s : String) → live (record { strings = set strings k o; heap = h' }) i ≡ some s
    → HasMode s
modes-set [] k o h h' old new i s e = absurd (ground (arith, e))
modes-set (x ∷ xs) zero o h h' old new zero s e = new s e
modes-set (x ∷ xs) zero o h h' old new (suc i) s e = old (suc i) s e
modes-set (x ∷ xs) (suc k) o h h' old new zero s e = old zero s e
modes-set (x ∷ xs) (suc k) o h h' old new (suc i) s e =
    modes-set xs k o h h' (λ j r f. old (suc j) r f) new i s e

-- A string that is added holds its references beside the others.
pub added :
    (w : Program) (t : String) (h : Heap)
    → IsOwned w
    → HasMode t
    → IsBalanced h (λ q. references q (w.strings ++ (some t ∷ [])))
    → IsOwned (with_string w.strings t h)
added w t h v m b = record { balanced = b; modes = modes-append w.strings w.heap h t v.modes m }

pub copy-Does : (i : ℕ) (w : Program) → IsOwned w → length w.strings + 1 < 2 ^ 64 → Does (copy i) w
unfolding execute
copy-Does i w v fits = elim (Option-cases (live w i)) [
  | inl e ↦ idle (copy i) w (ground (arith, e)) v
  | inr (s, e) ↦
      let at = live-get w i s e in
      let m = v.modes i s e in
      let (h, f, b, _) =
        string_copy-IsBalanced s w.heap (λ q. references q w.strings)
          (λ q. references q (w.strings ++ (some s ∷ []))) m v.balanced
          (λ q. references-get q w.strings i s at)
          (omega (arith, fits, references-le s.pointer w.strings))
          (λ q. references-append q w.strings s) in
      (
        with_string w.strings s h,
        ground (arith, e, f),
        added w s h v m b,
        omega (arith, length-append w.strings (some s ∷ [])),
      )
]

pub drop-Does : (i : ℕ) (w : Program) → IsOwned w → Does (drop_string i) w
unfolding execute
drop-Does i w v = elim (Option-cases (live w i)) [
  | inl e ↦ idle (drop_string i) w (ground (arith, e)) v
  | inr (s, e) ↦
      let at = live-get w i s e in
      let (h, f, b) =
        destroy-IsBalanced s w.heap (λ q. references q w.strings)
          (λ q. references q (set w.strings i none)) (v.modes i s e) v.balanced
          (λ q. omega (arith, references-set q w.strings i (some s) none at)) in
      (
        record { strings = set w.strings i none; heap = h },
        ground (arith, e, f),
        record {
          balanced = b;
          modes = modes-set w.strings i none w.heap h v.modes (λ r z. absurd (ground (arith, z)));
        },
        omega (arith, length-set w.strings i none),
      )
]
