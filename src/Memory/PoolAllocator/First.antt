-- ===== src/Memory/PoolAllocator/First.antt =====
-- pool_allocator.cpp: the first arena of an allocator.
use hologine.Base.{
  ℕ, ◌+◌, ◌-◌, ◌*◌, ◌^◌, ◌≤◌, ◌<◌, ◌≡◌, ◌≢◌, refl, ap, ◌∙◌, sym, Option, some, List, [], ◌∷◌, ◌==◌,
  if◌then◌else◌, arith,
}
use hologine.Base.Bits.{mul_add_lt}
use hologine.Memory.MemoryArenaPool.{
  MemoryArenaPool, ArenaRecord, Answers, load, take_arena, get_arena,
}
use hologine.Memory.MemoryArenaPool.Arenas.{IsValid, load-store, load-get_elem?, get_arena-base}
use hologine.Memory.PoolAllocator.Requests.{
  FreeNode, PoolAllocator, get_first_free_node, request_empty_arena,
}
use hologine.Memory.PoolAllocator.{allocate}
use hologine.Memory.PoolAllocator.Lazy.{IsLazy, find, hand_out-IsLazy}
use hologine.Memory.PoolAllocator.Objects.{
  allocations, objects, Fits, count, allocations-cons, allocations-objects,
}

-- An allocator without arenas whose pool answers with the arena `p`, which has room for all objects.
pub record IsFresh (a : PoolAllocator) (answers : Answers) (p : ℕ) (pool : MemoryArenaPool)
    (r : ArenaRecord) : Type 0 where
  pub head : a.arena_list_head ≡ 0
  pub tail : a.arena_list_tail ≡ 0
  pub taken : take_arena answers a.memory_arena_pool ≡ some (p, pool)
  pub valid : IsValid pool
  pub not_null : p ≢ 0
  pub allocated : p ≤ pool.arena_count
  pub read : load pool p ≡ some r
  pub above : 0 < pool.arena_pool
  pub sized : 0 < a.object_size
  pub few : a.object_count < 2 ^ 64
  pub room : a.object_count * a.object_size ≤ pool.arena_size

module _ (a : PoolAllocator) (answers : Answers) (p : ℕ) (pool : MemoryArenaPool) (r : ArenaRecord)
    (w : IsFresh a answers p pool r) where
  inside : (i : ℕ) → i < a.object_count → get_arena (r.base + i * a.object_size) pool ≡ p
  inside i h =
      let not_null = w.not_null in
      let allocated = w.allocated in
      let room = w.room in
      let sized = w.sized in
      let l : i * a.object_size < pool.arena_size =
        omega (arith, mul_add_lt a.object_count a.object_size i 0 h sized) in
      let e : p - 1 + 1 ≡ p = omega (arith, not_null) in
      get_arena-base pool (p - 1) (i * a.object_size) r w.valid (omega (arith, not_null, allocated))
        (load-get_elem? pool p r not_null w.read) l
      ∙ e

  based : r.base ≢ 0
  based z =
      let not_null = w.not_null in
      let above = w.above in
      let allocated = w.allocated in
      omega (
        arith,
        w.valid.bases (p - 1) r (omega (arith, not_null, allocated))
            (load-get_elem? pool p r not_null w.read),
        z,
      )

  -- The arena that is requested is one span of objects, none of which is handed out.
  request_empty_arena-IsLazy :
      0 < a.object_count
      → (a' : PoolAllocator) × (request_empty_arena answers a ≡ some (p, a'))
        × IsLazy a' p r.base a.object_count 0
        × (a'.object_size ≡ a.object_size)
  unfolding request_empty_arena
  request_empty_arena-IsLazy h =
      let r' = record r {
        allocator = a.address;
        free_node_count = a.object_count;
        free_node_list = r.base;
      } in
      let (pool', s, back, same) = load-store pool p r r' w.read in
      let not_null = w.not_null in
      let start : r.base + 0 * a.object_size ≡ r.base = omega arith in
      let at_base : get_arena r.base pool' ≡ p =
        same r.base ∙ ap (λ (q : ℕ). get_arena q pool) (sym start) ∙ inside 0 h in
      let fresh : FreeNode = record { size = a.object_count; next = r.base; previous = r.base } in
      let nodes : ℕ → Option FreeNode = λ q. (if q == r.base then some fresh else a.nodes q) in
      let a' = record a {
        memory_arena_pool = pool';
        arena_list_head = p;
        arena_list_tail = p;
        nodes = nodes;
      } in
      (
        a',
        ground (arith, w.taken, w.read, not_null, s, at_base, w.tail),
        record {
          head = refl;
          not_null = not_null;
          based = based;
          sized = w.sized;
          few = w.few;
          inside = λ i l. same (r.base + i * a.object_size) ∙ inside i l;
          counted = (r', back, omega arith, sym start);
          left = (fresh, ap nodes start ∙ ground arith, omega arith, refl, sym start);
          first = (fresh, ground arith);
        },
        refl,
      )

  -- The first allocation requests the arena, and hands out its first object.
  allocate-first :
      (size : ℕ)
      → 1 < a.object_count
      → size ≤ a.object_size
      → (a' : PoolAllocator) × (allocate 1 answers size a
          ≡ some ([], r.base + 0 * a.object_size, a'))
        × IsLazy a' p r.base a.object_count 1
        × (a'.object_size ≡ a.object_size)
  unfolding allocate get_first_free_node
  allocate-first size h small =
      let (a₁, requested, w₁, e) = request_empty_arena-IsLazy (omega arith) in
      let not_null = w.not_null in
      let (pool₁, r₁, found, l, c, same) = find 0 a₁ p r.base a.object_count 0 w₁ (omega arith) in
      let (a₂, handed, w₂, e₂, _) =
        hand_out-IsLazy a₁ pool₁ r₁ p r.base a.object_count 0 w₁ h l c same in
      (
        a₂,
        ground (arith, small, w.head, requested, not_null, w₁.head, found, handed, e),
        w₂,
        e₂ ∙ e,
      )

  -- From an allocator without arenas, whose pool has one with room for all objects, allocations of
  -- sizes that fit into an object return the objects of that arena one after the other from its base,
  -- as long as fewer are requested than an arena has.
  pub allocations-fresh :
      (size : ℕ) (sizes : List ℕ)
      → count (size ∷ sizes) < a.object_count
      → Fits (size ∷ sizes) a.object_size
      → (a' : PoolAllocator) × (allocations (size ∷ sizes) answers a
          ≡ some (objects r.base a.object_size 0 (size ∷ sizes), a'))
        × IsLazy a' p r.base a.object_count (count (size ∷ sizes))
  allocations-fresh size sizes h (small, fits) =
      let (a₁, first, w₁, same) = allocate-first size (omega arith) small in
      let (a₂, rest, w₂) =
        allocations-objects sizes answers a₁ p r.base a.object_count 1 w₁ (omega arith)
          (rw same fits) in
      (a₂, allocations-cons size sizes answers a a₁ a₂ r.base 0 first rest same, w₂)
