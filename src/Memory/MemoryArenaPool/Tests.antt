-- ===== src/Memory/MemoryArenaPool/Tests.antt =====
-- The theorems on arena pools at concrete pools.
use hologine.Base.{
  ℕ, zero, suc, ◌+◌, ◌≤◌, ◌<◌, ◌≡◌, refl, ◌*◌, true, some, List, [], ◌∷◌, arith, length, get_elem?,
}
use hologine.Memory.MemoryArenaPool.{ArenaRecord, MemoryArenaPool, Answers, zero_record}
use hologine.Memory.MemoryArenaPool.Arenas.{IsValid}
use hologine.Memory.MemoryArenaPool.FreeList.{Free, take_and_return, take_arena-twice}
use hologine.Memory.MemoryArenaPool.Runs.{
  Operation, take, give, reserve_more, run_pool, run_pool-IsValid,
}

abbrev arena : ℕ → ℕ → ArenaRecord
arena base next = record zero_record { base = base; next = next }

-- Two arenas of 100 bytes, both of them free.
abbrev two : MemoryArenaPool
two = record {
  region = record { max_size = 100000; current_size = 65736; memory = 1000 };
  records = arena 66536 0 ∷ arena 66636 1 ∷ zero_record ∷ [];
  next_free_arena = 2;
  arena_pool = 66536;
  arena_size = 100;
  arena_reserved = 3;
  arena_count = 2;
}

two-links : (i : ℕ) (r : ArenaRecord) → get_elem? two.records i ≡ some r → r.next ≤ 3
two-links zero r g = ground (arith, g)
two-links (suc zero) r g = ground (arith, g)
two-links (suc (suc zero)) r g = ground (arith, g)
two-links (suc (suc (suc i))) r g = absurd (ground (arith, g))

two-bases :
    (i : ℕ) (r : ArenaRecord) → i < 2 → get_elem? two.records i ≡ some r → r.base ≡ 66536 + i * 100
two-bases zero r l g = ground (arith, g)
two-bases (suc zero) r l g = ground (arith, g)
two-bases (suc (suc i)) r l g = absurd (omega arith)

two-IsValid : IsValid two
two-IsValid = record {
  room = omega arith;
  count = omega arith;
  head = omega arith;
  links = two-links;
  bases = two-bases;
}

two-Free : Free two (2 ∷ 1 ∷ [])
two-Free = (refl, omega arith, (_, refl, (refl, omega arith, (_, refl, refl))))

abbrev granted : Answers
granted = record { reserved = 1000; committed = true }

take_arena-twice_example :
    (last : MemoryArenaPool) × (take_and_return granted two ≡ some (2 ∷ 1 ∷ 2 ∷ 1 ∷ [], last))
take_arena-twice_example = take_arena-twice granted two 2 1 (omega arith) two-Free

abbrev operations : List Operation
operations =
    take granted ∷ take granted ∷ give 1 ∷ reserve_more (granted ∷ granted ∷ []) ∷ take granted ∷ []

run_pool-IsValid_example :
    (after : MemoryArenaPool) × (run_pool operations two ≡ some after)
    × IsValid after
    × (length after.records ≡ length two.records)
run_pool-IsValid_example =
    run_pool-IsValid operations two two-IsValid (omega arith, omega arith, tt)
