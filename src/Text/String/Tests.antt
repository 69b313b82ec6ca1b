-- ===== src/Text/String/Tests.antt =====
-- Runs of hologine/core/text/string.cpp.
use hologine.Base.{
  ℕ, ◌+◌, ◌>>=◌, ◌≡◌, refl, ◌-◌, ◌↔◌, Bool, true, not, Option, none, some, List, [], ◌∷◌, take,
  drop, arith, ◌==◌, if◌then◌else◌,
}
use hologine.Text.StringIterator.{StringIterator}
use hologine.Text.String.{
  String, storage_managed, storage_unmanaged, duplicate, duplicate_with, substring, equal,
  not_equal, string_copy, view,
}
use hologine.Text.String.Buffers.{Heap, update, reference_buffer}
use hologine.Text.String.Release.{made}
use hologine.Text.String.Runs.{
  Program, Operation, make, copy, give, drop_string, run_strings, IsOwned,
}
use hologine.Text.String.Reachable.{run_strings-IsOwned}
use hologine.Text.String.Contents.{contents, equal_lem}
use hologine.Text.String.Substrings.{substring-contents}
use hologine.Text.String.Duplicates.{duplicate_managed}

-- Two C strings, and no buffer.
abbrev literals : ℕ → Option (List ℕ)
literals p =
    if p == 100
    then some (97 ∷ 98 ∷ 99 ∷ 0 ∷ [])
    else if p == 150
    then some (97 ∷ 98 ∷ 100 ∷ 0 ∷ [])
    else none

abbrev start : Program
start = record { strings = []; heap = record { buffers = λ p. none; memory = literals } }

start-IsOwned : IsOwned start
start-IsOwned = record {
  balanced = record {
    counted = λ p. refl;
    backed = λ p b e. absurd (ground (arith, e));
    apart = λ p q a b e f g. absurd (ground (arith, e));
  };
  modes = λ i s e. absurd (ground (arith, e));
}

abbrev operations : List Operation
operations =
    make 8 200 1 100 ∷ copy 0 ∷ make 16 300 1 150 ∷ give 1 2 ∷ give 2 1 ∷ drop_string 0 ∷ []

run_strings-IsOwned_example : (w' : Program) × (run_strings operations start ≡ some w') × IsOwned w'
run_strings-IsOwned_example =
    run_strings-IsOwned operations start
      ((omega arith, omega arith), (tt, ((omega arith, omega arith), (tt, (tt, (tt, tt))))))
      start-IsOwned (omega arith)

-- A buffer that holds "abc".
abbrev heap : Heap
heap = record {
  buffers = update (λ p. none) 8 (some (made 200 1 (97 ∷ 98 ∷ 99 ∷ [])));
  memory = update literals 200 (some (97 ∷ 98 ∷ 99 ∷ []));
}

abbrev abc : String
abc = record { storage_mode = storage_managed; pointer = 8; offset = 0; length = 3 }

abbrev literal : String
literal = record { storage_mode = storage_unmanaged; pointer = 100; offset = 0; length = 3 }

equal_lem_example :
    (b : Bool) × (equal abc literal heap ≡ some b)
    × (not_equal abc literal heap ≡ some (not b))
    × ((b ≡ true) ↔ (◌≡◌ {A = List ℕ} (97 ∷ 98 ∷ 99 ∷ []) (97 ∷ 98 ∷ 99 ∷ [])))
equal_lem_example =
    equal_lem abc literal heap (97 ∷ 98 ∷ 99 ∷ []) (97 ∷ 98 ∷ 99 ∷ []) refl refl (omega arith)
      (omega arith) refl refl

-- An iterator of the string at address 40.
abbrev at_offset : ℕ → StringIterator
at_offset n = record {
  string = some (view 40 abc heap);
  next_offset = n + 1;
  current_offset = n;
  cached_code_point_value = 0;
  is_valid = true;
}

abbrev referenced : Heap
referenced = record heap {
  buffers =
      update heap.buffers 8
        (some (record (made 200 1 (97 ∷ 98 ∷ 99 ∷ [])) { reference_count = 2 }));
}

abc_copied : string_copy abc heap ≡ some (abc, referenced)
unfolding string_copy reference_buffer
abc_copied = refl

substring-contents_example :
    (u : String) × (substring 40 abc (at_offset 1) (at_offset 3) heap ≡ some (none, u, referenced))
    × (contents u referenced ≡ some (take (3 - 1) (drop 1 (97 ∷ 98 ∷ 99 ∷ []))))
    × (contents abc referenced ≡ some (97 ∷ 98 ∷ 99 ∷ []))
substring-contents_example =
    substring-contents 40 abc abc (at_offset 1) (at_offset 3) heap referenced (97 ∷ 98 ∷ 99 ∷ [])
      refl refl abc_copied refl refl (omega arith) (omega arith) (omega arith)

-- "bc", and its substring behind the first character, which starts at the second of "abc" again.
abbrev bc : String
bc = record { storage_mode = storage_managed; pointer = 8; offset = 1; length = 2 }

abbrev nested : Option (List ℕ)
unfolding substring string_copy reference_buffer
nested = do (e, u, h) ← substring 40 bc (at_offset 1) (at_offset 2) heap; contents u h

nested_runs : nested ≡ some (98 ∷ [])
unfolding substring string_copy reference_buffer
nested_runs = refl

duplicate_managed_example :
    (duplicate 0 16 300 abc heap ≡ none) × (duplicate_with 0 16 300 1 abc heap ≡ none)
duplicate_managed_example =
    duplicate_managed 0 16 300 1 abc heap (made 200 1 (97 ∷ 98 ∷ 99 ∷ [])) (97 ∷ 98 ∷ 99 ∷ []) refl
      (omega arith) refl refl (omega arith, (omega arith, (omega arith, tt)))
