-- ===== src/Memory/FixedAllocator/Tests.antt =====
-- The theorem on the fixed allocator at a concrete client.
use hologine.Base.{◌≡◌, refl, some, List, [], ◌∷◌, ◌==◌, if◌then◌else◌, arith}
use hologine.Memory.Allocator.{align_pointer}
use hologine.Memory.FixedAllocator.{FixedAllocator, holds_word, reserve_span}
use hologine.Memory.FixedAllocator.Reserve.{reserve_span_lem}
use hologine.Memory.FixedAllocator.FreeNodes.{
  Free, Request, get, put, write, run_allocator, spec_step, spec_run, run_allocator_refines,
}

-- Blocks of 16 bytes, those at 100 and 116 free.
abbrev two_free : FixedAllocator
two_free = record {
  free_nodes = 100;
  object_size = 16;
  memory = λ p. if p == 100 then 116 else 0;
  accessible = holds_word 84 200;
}

abbrev requests : List Request
requests = get 16 ∷ write 100 7 ∷ get 17 ∷ get 8 ∷ get 8 ∷ put 100 ∷ get 1 ∷ []

run_allocator_refines_example :
    (a' : FixedAllocator) × (run_allocator requests two_free
      ≡ some ((spec_run two_free.object_size requests (100 ∷ 116 ∷ [])).0, a'))
    × Free a' (spec_run two_free.object_size requests (100 ∷ 116 ∷ [])).1
unfolding spec_step
run_allocator_refines_example =
    run_allocator_refines requests two_free (100 ∷ 116 ∷ [])
      ((refl, omega arith, (refl, omega arith, refl)), (refl, (refl, tt)))
      (tt, (((omega arith, tt), refl), (tt, (tt, (tt, ((omega arith, tt, refl), (tt, tt)))))))

-- An allocator before its nodes are reserved.
abbrev empty : FixedAllocator
empty = record {
  free_nodes = 0;
  object_size = 16;
  memory = λ p. 0;
  accessible = holds_word 1024 400;
}

-- Four nodes by the count, of which three are free.
reserve_span_lem_example :
    (a' : FixedAllocator) × (reserve_span 3 100 1024 400 16 empty ≡ some a')
    × Free a' (1040 ∷ 1056 ∷ 1072 ∷ [])
unfolding align_pointer
reserve_span_lem_example =
    reserve_span_lem 100 1024 400 16 3 empty refl (omega arith) (omega arith) (omega arith)
      (omega arith) (omega arith) (omega arith) (omega arith) (λ p. refl) refl
