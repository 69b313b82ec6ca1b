-- ===== src/Memory/MemoryArenaPool/Runs.antt =====
-- memory_arena_pool.cpp: sequences of operations on a pool.
use hologine.Base.{
  ◌^◌, max, length-replicate, get_elem?-replicate, ℕ, ◌+◌, ◌*◌, ◌/◌, ◌%◌, ◌≤◌, ◌<◌, ◌≡◌, refl, ◌∙◌,
  ◌≢◌, inl, inr, Bool-cases, Option, some, List, [], ◌∷◌, length, arith, ◌==◌, ◌>>=◌,
}
use hologine.Memory.MemoryRegion.{grow, memory_region, get_page_size, get_granularity}
use native.Mathlib.Decide.{ℕ_discrete}
use hologine.Memory.MemoryArenaPool.{
  MemoryArenaPool, Answers, reserve, take_arena, give_arena, memory_arena_pool, sizeof_arena_record,
  zero_record,
}
use hologine.Memory.MemoryArenaPool.Arenas.{IsValid, pop_arena-IsValid, give_arena-IsValid}
use hologine.Memory.MemoryArenaPool.Allocate.{allocate_arena-IsValid}

-- What an operation that does not fault gives: its result, and a valid pool with the same array.
abbrev pub Gives {ℓ} : {A : Type ℓ} → Option (A × MemoryArenaPool) → MemoryArenaPool → Type ℓ
Gives {A} o pool =
    (a : A) × (after : MemoryArenaPool) × (o ≡ some (a, after))
    × IsValid after
    × (length after.records ≡ length pool.records)

take_arena-IsValid :
    (answers : Answers) (pool : MemoryArenaPool)
    → IsValid pool
    → Gives (take_arena answers pool) pool
unfolding take_arena
take_arena-IsValid answers pool v = elim (ℕ_discrete pool.next_free_arena 0) [
  | no n ↦
      let (p, after, e, w, l) = pop_arena-IsValid pool v n in (p, after, ground (arith, n, e), w, l)
  | yes z ↦
      let (ok, grown, e, w, l, h, c) = allocate_arena-IsValid answers pool v in
      elim (Bool-cases ok) [
        | inl y ↦
            let (p, after, f, u, k) = pop_arena-IsValid grown w (h y) in
            (p, after, ground (arith, z, e, y, f), u, k ∙ l)
        | inr y ↦ (0, grown, ground (arith, z, e, y), w, l)
      ]
]

-- `reserve` on a valid pool accesses nothing outside of the array and leaves the pool valid; it
-- returns how many arenas it added, at most the number that was asked for.
pub reserve-IsValid :
    (rounds : List Answers) (pool : MemoryArenaPool)
    → IsValid pool
    → (n : ℕ) × (after : MemoryArenaPool) × (reserve rounds pool ≡ some (n, after))
      × IsValid after
      × (length after.records ≡ length pool.records)
      × (after.arena_count ≡ pool.arena_count + n)
      × (n ≤ length rounds)
unfolding reserve
reserve-IsValid [] pool v = (0, pool, refl, v, refl, omega arith, omega arith)
reserve-IsValid (answers ∷ rounds) pool v =
    let (ok, grown, e, w, l, h, c) = allocate_arena-IsValid answers pool v in
    let (n, after, f, u, k, d, b) = reserve-IsValid rounds grown w in
    elim (Bool-cases ok) [
      | inl y ↦ (
        n + 1,
        after,
        ground (arith, e, f, y),
        u,
        k ∙ l,
        ground (arith, c, d, y),
        omega (arith, b),
      )
      | inr y ↦ (0, grown, ground (arith, e, y), w, l, ground (arith, c, y), omega arith)
    ]

-- The operations on a pool, with what the platform answers.
pub data Operation : Type 0 where
  take : Answers → Operation
  give : ℕ → Operation
  reserve_more : List Answers → Operation

pub step : Operation → MemoryArenaPool → Option MemoryArenaPool
step (take answers) pool = do (p, after) ← take_arena answers pool; some after
step (give p) pool = give_arena p pool
step (reserve_more rounds) pool = do (n, after) ← reserve rounds pool; some after

pub run_pool : List Operation → MemoryArenaPool → Option MemoryArenaPool
unfolding step
run_pool [] pool = some pool
run_pool (o ∷ os) pool = do after ← step o pool; run_pool os after

-- What is given back is a record of the array.
abbrev pub AreRecords : ℕ → List Operation → Type 0
AreRecords size [] = Unit
AreRecords size (give p ∷ os) = (p ≢ 0) × (p ≤ size) × AreRecords size os
AreRecords size (take answers ∷ os) = AreRecords size os
AreRecords size (reserve_more rounds ∷ os) = AreRecords size os

-- On a valid pool every sequence of `take_arena`, `give_arena` and `reserve` in which only records
-- of the array are given back runs without an access outside of the array, whatever the platform
-- answers, and leaves a valid pool.
pub run_pool-IsValid :
    (os : List Operation) (pool : MemoryArenaPool)
    → IsValid pool
    → AreRecords (length pool.records) os
    → (after : MemoryArenaPool) × (run_pool os pool ≡ some after)
      × IsValid after
      × (length after.records ≡ length pool.records)
unfolding run_pool step
run_pool-IsValid [] pool v w = (pool, refl, v, refl)
run_pool-IsValid (take answers ∷ os) pool v w =
    let (p, next, e, u, l) = take_arena-IsValid answers pool v in
    let (after, f, t, k) = run_pool-IsValid os next u (rw l w) in (after, rw e f, t, k ∙ l)
run_pool-IsValid (give p ∷ os) pool v (n, h, w) =
    let (next, e, u, l) = give_arena-IsValid p pool v n h in
    let (after, f, t, k) = run_pool-IsValid os next u (rw l w) in (after, rw e f, t, k ∙ l)
run_pool-IsValid (reserve_more rounds ∷ os) pool v w =
    let (n, next, e, u, l, d, b) = reserve-IsValid rounds pool v in
    let (after, f, t, k) = run_pool-IsValid os next u (rw l w) in (after, rw e f, t, k ∙ l)

-- A pool whose constructor got its records from the platform is valid, if the size of the array
-- does not wrap.
pub memory_arena_pool-IsValid :
    (answers : Answers) (size count : ℕ)
    → count * sizeof_arena_record < 2 ^ 64
    → (memory_arena_pool answers size count).records ≢ []
    → IsValid (memory_arena_pool answers size count)
unfolding memory_arena_pool
memory_arena_pool-IsValid answers size count l h =
    let record_size : ℕ =
      max (max get_page_size get_granularity) (count * sizeof_arena_record % 2 ^ 64) in
    let grown =
      grow record_size answers.reserved answers.committed
        (memory_region ((record_size + size * count % 2 ^ 64) % 2 ^ 64)) in
    elim (Bool-cases (grown.0 == 0)) [
      | inl y ↦ absurd (h (rw y refl))
      | inr n ↦ rw n (record {
        room = omega (arith, length-replicate (record_size / sizeof_arena_record) zero_record, l);
        count = omega arith;
        head = omega arith;
        links = λ i r g.
            ground
              (arith, get_elem?-replicate (record_size / sizeof_arena_record) i zero_record r g);
        bases = λ i r k g. absurd (omega arith);
      })
    ]
