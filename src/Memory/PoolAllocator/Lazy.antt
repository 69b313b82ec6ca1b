-- ===== src/Memory/PoolAllocator/Lazy.antt =====
-- pool_allocator.cpp: an arena whose objects are handed out one after the other.
use hologine.Base.{
  ℕ, suc, ◌+◌, ◌-◌, ◌*◌, ◌%◌, ◌^◌, ◌≤◌, ◌<◌, ◌≡◌, ◌≢◌, refl, ap, ◌∙◌, sym, Option, some, [], ◌==◌,
  if◌then◌else◌, arith,
}
use hologine.Memory.MemoryArenaPool.{MemoryArenaPool, ArenaRecord, Answers, load, get_arena}
use hologine.Memory.MemoryArenaPool.Arenas.{load-store}
use hologine.Memory.PoolAllocator.Requests.{FreeNode, PoolAllocator, with_pool, get_first_free_node}
use hologine.Memory.PoolAllocator.{hand_out, allocate}

-- `k` of `n` objects of the arena are handed out; `base` is its first address.
pub record IsLazy (a : PoolAllocator) (arena base n k : ℕ) : Type 0 where
  pub head : a.arena_list_head ≡ arena
  pub not_null : arena ≢ 0
  pub based : base ≢ 0
  pub sized : 0 < a.object_size
  pub few : n < 2 ^ 64
  pub inside : (i : ℕ) → i < n → get_arena (base + i * a.object_size) a.memory_arena_pool ≡ arena
  pub counted :
      (r : ArenaRecord) × (load a.memory_arena_pool arena ≡ some r)
      × (r.free_node_count ≡ n - k)
      × (r.free_node_list ≡ base + k * a.object_size)
  pub left :
      (m : FreeNode) × (a.nodes (base + k * a.object_size) ≡ some m)
      × (m.size ≡ n - k)
      × (m.previous ≡ base)
      × (m.next ≡ base + (k - 1) * a.object_size)
  pub first : (m : FreeNode) × (a.nodes base ≡ some m)

-- The search finds the first object that was not handed out, and counts it.
pub find :
    (fuel : ℕ) (a : PoolAllocator) (arena base n k : ℕ)
    → IsLazy a arena base n k
    → k < n
    → (pool : MemoryArenaPool) × (r : ArenaRecord) × (get_first_free_node
          (suc fuel)
          a.arena_list_head
          a
        ≡ some (base + k * a.object_size, with_pool pool a))
      × (load pool arena ≡ some r)
      × (r.free_node_count ≡ n - k - 1)
      × ((q : ℕ) → get_arena q pool ≡ get_arena q a.memory_arena_pool)
unfolding get_first_free_node
find fuel a arena base n k w h =
    let (r, e, c, l) = w.counted in
    let r' = record r { free_node_count = (r.free_node_count + 2 ^ 64 - 1) % 2 ^ 64 } in
    let (pool, s, back, same) = load-store a.memory_arena_pool arena r r' e in
    let few = w.few in
    let here : r.free_node_list ≢ 0 = λ z. w.based (omega (arith, l, z)) in
    (pool, r', ground (arith, w.head, w.not_null, e, here, s, l), back, omega (arith, c, few), same)

-- Handing out an object that is not the last: the next one becomes the free list, and the object at
-- the base is written.
pub hand_out-IsLazy :
    (a : PoolAllocator) (pool : MemoryArenaPool) (r : ArenaRecord) (arena base n k : ℕ)
    → IsLazy a arena base n k
    → k + 1 < n
    → load pool arena ≡ some r
    → r.free_node_count ≡ n - k - 1
    → ((q : ℕ) → get_arena q pool ≡ get_arena q a.memory_arena_pool)
    → (a' : PoolAllocator) × (hand_out (base + k * a.object_size) (with_pool pool a)
        ≡ some (base + k * a.object_size, a'))
      × IsLazy a' arena base n (suc k)
      × (a'.object_size ≡ a.object_size)
      × ((m : FreeNode) × (a'.nodes base ≡ some m) × (m.next ≡ base + suc k * a.object_size))
hand_out-IsLazy a pool r arena base n k w h e c same =
    let os = a.object_size in
    let node = base + k * os in
    let next = node + os in
    let (m, at, size, prev, _) = w.left in
    let (b, first) = w.first in
    let sized = w.sized in
    let based = w.based in
    let at_next : base + suc k * os ≡ next = omega arith in
    let inside_node : get_arena node pool ≡ arena = same node ∙ w.inside k (omega arith) in
    let inside_next : get_arena next pool ≡ arena =
      same next
      ∙ ap (λ (q : ℕ). get_arena q a.memory_arena_pool) (sym at_next)
      ∙ w.inside (suc k) (omega arith) in
    let start : base + 0 * os ≡ base = omega arith in
    let inside_base : get_arena base pool ≡ arena =
      same base
      ∙ ap (λ (q : ℕ). get_arena q a.memory_arena_pool) (sym start)
      ∙ w.inside 0 (omega arith) in
    let r' = record r { free_node_list = next } in
    let (pool', s, back, kept) = load-store pool arena r r' e in
    let apart : next ≢ node = λ z. absurd (omega (arith, sized, z)) in
    let apart' : next ≢ base = λ z. absurd (omega (arith, sized, z)) in
    let fresh : FreeNode = record { size = m.size - 1; next = node; previous = m.previous } in
    let nodes₁ : ℕ → Option FreeNode = λ q. (if q == next then some fresh else a.nodes q) in
    let nodes₂ : ℕ → Option FreeNode =
      λ q. (if q == base then some (record b { next = next }) else nodes₁ q) in
    let last : suc k - 1 ≡ k = omega arith in
    let a' = record a { memory_arena_pool = pool'; nodes = nodes₂ } in
    (
      a',
      ground (arith, first, at, e, c, inside_node, inside_next, inside_base, s, size, prev),
      record {
        head = w.head;
        not_null = w.not_null;
        based = based;
        sized = sized;
        few = w.few;
        inside = λ i l. kept (base + i * os) ∙ same (base + i * os) ∙ w.inside i l;
        counted = (r', back, omega (arith, c), sym at_next);
        left = (
          fresh,
          ap nodes₂ at_next ∙ ground (arith, apart'),
          omega (arith, size),
          prev,
          ap (λ (j : ℕ). base + j * os) (sym last),
        );
        first = (record b { next = next }, ground arith);
      },
      refl,
      (record b { next = next }, ground arith, sym at_next),
    )

-- An allocation where `k` of the `n` objects of the first arena are handed out, and this is not the
-- last of them: it pushes no exception, returns the next object, and keeps to that state; but it
-- writes the pointer to the object after that into the first object of the arena, which has been
-- handed out unless `k` is 0.
pub allocate-IsLazy :
    (fuel : ℕ) (answers : Answers) (size : ℕ) (a : PoolAllocator) (arena base n k : ℕ)
    → IsLazy a arena base n k
    → k + 1 < n
    → size ≤ a.object_size
    → (a' : PoolAllocator) × (allocate (suc fuel) answers size a
        ≡ some ([], base + k * a.object_size, a'))
      × IsLazy a' arena base n (suc k)
      × (a'.object_size ≡ a.object_size)
      × ((m : FreeNode) × (a'.nodes base ≡ some m) × (m.next ≡ base + suc k * a.object_size))
unfolding allocate get_first_free_node
allocate-IsLazy fuel answers size a arena base n k w h small =
    let (pool, r, found, e, c, same) = find fuel a arena base n k w (omega arith) in
    let (a', handed, w', sized, first) = hand_out-IsLazy a pool r arena base n k w h e c same in
    let based = w.based in
    let there : base + k * a.object_size ≢ 0 = λ z. based (omega (arith, z)) in
    (a', ground (arith, small, found, there, handed), w', sized, first)
