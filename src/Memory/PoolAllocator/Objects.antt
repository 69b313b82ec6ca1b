-- ===== src/Memory/PoolAllocator/Objects.antt =====
-- pool_allocator.cpp: sequences of allocations, and deallocation.
use hologine.Base.{
  ℕ, suc, ◌+◌, ◌-◌, ◌*◌, ◌%◌, ◌^◌, ◌≤◌, ◌<◌, ◌≡◌, ◌≢◌, refl, ap, ◌∙◌, Option, none, some, List, [],
  ◌∷◌, ◌>>=◌, arith,
}
use hologine.Memory.MemoryArenaPool.{ArenaRecord, Answers, load, get_arena}
use hologine.Memory.MemoryArenaPool.Arenas.{load-store, get_arena-below}
use hologine.Memory.PoolAllocator.Requests.{PoolAllocator, with_pool}
use hologine.Memory.PoolAllocator.{allocate, deallocate, free_node}
use hologine.Memory.PoolAllocator.Lazy.{IsLazy, allocate-IsLazy}

-- The pointers that a sequence of allocations returns, one for each of the sizes.
pub allocations : List ℕ → Answers → PoolAllocator → Option (List ℕ × PoolAllocator)
unfolding allocate
allocations [] answers a = some ([], a)
allocations (size ∷ sizes) answers a = do
  (pushed, p, a₁) ← allocate 1 answers size a
  (ps, a₂) ← allocations sizes answers a₁
  some (p ∷ ps, a₂)

-- The addresses of the objects from the `k`th on, as many as there are sizes.
abbrev pub objects : ℕ → ℕ → ℕ → List ℕ → List ℕ
objects base object_size k [] = []
objects base object_size k (size ∷ sizes) =
    (base + k * object_size) ∷ objects base object_size (suc k) sizes

abbrev pub Fits : List ℕ → ℕ → Type 0
Fits [] object_size = Unit
Fits (size ∷ sizes) object_size = (size ≤ object_size) × Fits sizes object_size

abbrev pub count : List ℕ → ℕ
count [] = 0
count (size ∷ sizes) = 1 + count sizes

-- The first allocation and those behind it.
pub allocations-cons :
    (size : ℕ) (sizes : List ℕ) (answers : Answers) (a a₁ a₂ : PoolAllocator) (base k : ℕ)
    → allocate 1 answers size a ≡ some ([], base + k * a.object_size, a₁)
    → allocations sizes answers a₁ ≡ some (objects base a₁.object_size (suc k) sizes, a₂)
    → a₁.object_size ≡ a.object_size
    → allocations (size ∷ sizes) answers a ≡ some (objects base a.object_size k (size ∷ sizes), a₂)
unfolding allocations
allocations-cons size sizes answers a a₁ a₂ base k first rest same =
    let next : List ℕ = objects base a.object_size (suc k) sizes in
    let rest' : allocations sizes answers a₁ ≡ some (next, a₂) =
      rest ∙ ap (λ (os : ℕ). some (objects base os (suc k) sizes, a₂)) same in
    ground (arith, first, rest')

-- As long as an object of the first arena remains, allocations of sizes that fit into an object
-- return its objects one after the other: `k` were handed out before, and all of the rest but one may be
-- requested.
pub allocations-objects :
    (sizes : List ℕ) (answers : Answers) (a : PoolAllocator) (arena base n k : ℕ)
    → IsLazy a arena base n k
    → k + count sizes < n
    → Fits sizes a.object_size
    → (a' : PoolAllocator) × (allocations sizes answers a
        ≡ some (objects base a.object_size k sizes, a'))
      × IsLazy a' arena base n (k + count sizes)
unfolding allocations
allocations-objects [] answers a arena base n k w h fits =
    let e : k + 0 ≡ k = omega arith in (a, refl, rw e w)
allocations-objects (size ∷ sizes) answers a arena base n k w h (small, fits) =
    let (a₁, first, w₁, same, _) =
      allocate-IsLazy 0 answers size a arena base n k w (omega arith) small in
    let (a₂, rest, w₂) =
      allocations-objects sizes answers a₁ arena base n (suc k) w₁ (omega arith) (rw same fits) in
    let e : k + (1 + count sizes) ≡ suc k + count sizes = omega arith in
    (a₂, allocations-cons size sizes answers a a₁ a₂ base k first rest same, rw e w₂)

-- A write outside of the arenas fails.
free_node-outside :
    (pointer : ℕ) (r : ArenaRecord) (a : PoolAllocator)
    → get_arena pointer a.memory_arena_pool ≡ 0
    → free_node pointer r a ≡ none
free_node-outside pointer r a h = ground arith

-- Deallocation of an address in an arena fails unless it completes the arena, where the arenas lie
-- above the addresses smaller than an object: the pointer is replaced by an offset, and the node is
-- written there.
pub deallocate-fails :
    (pointer : ℕ) (r : ArenaRecord) (a : PoolAllocator)
    → load a.memory_arena_pool (get_arena pointer a.memory_arena_pool) ≡ some r
    → 0 < a.object_size
    → a.object_size ≤ a.memory_arena_pool.arena_pool
    → (r.free_node_count + 1) % 2 ^ 64 ≢ a.object_count
    → deallocate pointer a ≡ none
unfolding deallocate
deallocate-fails pointer r a e sized above n =
    let pool = a.memory_arena_pool in
    let offset = (pointer + 2 ^ 64 - r.base) % 2 ^ 64 % a.object_size in
    let r' = record r { free_node_count = (r.free_node_count + 1) % 2 ^ 64 } in
    let (pool', s, _, same) = load-store pool (get_arena pointer pool) r r' e in
    let below : offset < pool.arena_pool = omega (arith, sized, above) in
    let outside = same offset ∙ get_arena-below offset pool below in
    let fails = free_node-outside offset r' (with_pool pool' a) outside in
    ground (arith, e, s, n, fails)
