-- ===== src/Memory/MemoryArenaPool/Arenas.antt =====
-- memory_arena_pool.cpp: where the arenas are.
use native.Mathlib.Decide.{ℕ_discrete}
use hologine.Base.{
  ℕ, ◌+◌, ◌-◌, ◌*◌, ◌/◌, ◌≤◌, ◌<◌, ◌≡◌, refl, ap, ◌≢◌, inl, inr, some, length, get_elem?, set,
  arith, get_elem?-some, length-set, get_elem?-set_cases, get_elem?-set_self, get_elem?-lt,
  if◌then◌else◌, ◌==◌,
}
use hologine.Base.Bits.{mul_add_lt, quotient}
use hologine.Memory.MemoryArenaPool.{
  ArenaRecord, MemoryArenaPool, load, store, pop_arena, give_arena, get_arena,
}

-- A pool whose array has room for the arenas that it may allocate, each of which lies behind the
-- one before, and whose links stay in the array.
pub record IsValid (pool : MemoryArenaPool) : Type 0 where
  pub room : pool.arena_reserved ≤ length pool.records
  pub count : pool.arena_count ≤ pool.arena_reserved
  pub head : pool.next_free_arena ≤ length pool.records
  pub links :
      (i : ℕ) (r : ArenaRecord) → get_elem? pool.records i ≡ some r → r.next ≤ length pool.records
  pub bases :
      (i : ℕ) (r : ArenaRecord)
      → i < pool.arena_count
      → get_elem? pool.records i ≡ some r
      → r.base ≡ pool.arena_pool + i * pool.arena_size

-- In a valid pool `get_arena` leads from every address inside of an allocated arena back to its
-- record.
pub get_arena-base :
    (pool : MemoryArenaPool) (i offset : ℕ) (r : ArenaRecord)
    → IsValid pool
    → i < pool.arena_count
    → get_elem? pool.records i ≡ some r
    → offset < pool.arena_size
    → get_arena (r.base + offset) pool ≡ i + 1
unfolding get_arena
get_arena-base pool i offset r v l g o =
    let b : r.base ≡ pool.arena_pool + i * pool.arena_size = v.bases i r l g in
    let e : r.base + offset - pool.arena_pool ≡ i * pool.arena_size + offset = omega (arith, b) in
    ground (
      arith,
      b,
      mul_add_lt pool.arena_count pool.arena_size i offset l o,
      e,
      ap (λ (t : ℕ). t / pool.arena_size) e,
      quotient pool.arena_size i offset o,
    )

-- A record that is written keeps a valid pool valid if its link stays in the array and its base,
-- when it is one of an allocated arena, is the right one.
pub IsValid-set :
    (pool : MemoryArenaPool) (i : ℕ) (new : ArenaRecord)
    → IsValid pool
    → new.next ≤ length pool.records
    → (i < pool.arena_count → new.base ≡ pool.arena_pool + i * pool.arena_size)
    → IsValid (record pool { records = set pool.records i new })
IsValid-set pool i new v h b = record {
  room = omega (arith, length-set pool.records i new, v.room);
  count = v.count;
  head = omega (arith, length-set pool.records i new, v.head);
  links = λ j r g. elim (get_elem?-set_cases pool.records i j new r g) [
    | inl (e, w) ↦
        omega (arith, length-set pool.records i new, h, ap (λ (t : ArenaRecord). t.next) w)
    | inr (n, k) ↦ omega (arith, length-set pool.records i new, v.links j r k)
  ];
  bases = λ j r l g. elim (get_elem?-set_cases pool.records i j new r g) [
    | inl (e, w) ↦ ground (arith, e, w, l, b)
    | inr (n, k) ↦ v.bases j r l k
  ];
}

-- A link of a valid pool may become the head of its free list.
pub IsValid-head :
    (pool : MemoryArenaPool) (p : ℕ)
    → IsValid pool
    → p ≤ length pool.records
    → IsValid (record pool { next_free_arena = p })
IsValid-head pool p v h = record {
  room = v.room;
  count = v.count;
  head = h;
  links = v.links;
  bases = v.bases;
}

pub pop_arena-IsValid :
    (pool : MemoryArenaPool)
    → IsValid pool
    → pool.next_free_arena ≢ 0
    → (p : ℕ) × (after : MemoryArenaPool) × (pop_arena pool ≡ some (p, after))
      × IsValid after
      × (length after.records ≡ length pool.records)
unfolding pop_arena load
pop_arena-IsValid pool v n =
    let (r, g) = get_elem?-some pool.records (pool.next_free_arena - 1) (omega (arith, v.head)) in
    (
      pool.next_free_arena,
      record pool { next_free_arena = r.next },
      ground (arith, g, n),
      IsValid-head pool r.next v (v.links (pool.next_free_arena - 1) r g),
      refl,
    )

pub give_arena-IsValid :
    (p : ℕ) (pool : MemoryArenaPool)
    → IsValid pool
    → p ≢ 0
    → p ≤ length pool.records
    → (after : MemoryArenaPool) × (give_arena p pool ≡ some after)
      × IsValid after
      × (length after.records ≡ length pool.records)
unfolding give_arena store load
give_arena-IsValid p pool v n h =
    let (r, g) = get_elem?-some pool.records (p - 1) (omega arith) in
    let next : ℕ = if pool.next_free_arena == 0 then r.next else pool.next_free_arena in
    let given : ArenaRecord = record r {
      allocator = 0;
      free_node_count = 0;
      free_node_list = 0;
      previous = 0;
      next = next;
    } in
    let w =
      IsValid-set pool (p - 1) given v (ground (arith, v.head, v.links (p - 1) r g))
        (λ l. v.bases (p - 1) r l g) in
    (
      record pool { records = set pool.records (p - 1) given; next_free_arena = p },
      ground (arith, g, n),
      IsValid-head (record pool { records = set pool.records (p - 1) given }) p w
          (omega (arith, length-set pool.records (p - 1) given)),
      length-set pool.records (p - 1) given,
    )

-- A record that is there can be written, and read back.
pub load-store :
    (pool : MemoryArenaPool) (p : ℕ) (r r' : ArenaRecord)
    → load pool p ≡ some r
    → (pool' : MemoryArenaPool) × (store pool p r' ≡ some pool')
      × (load pool' p ≡ some r')
      × ((q : ℕ) → get_arena q pool' ≡ get_arena q pool)
unfolding load store get_arena
load-store pool p r r' e = elim (ℕ_discrete p 0) [
  | yes z ↦ absurd (ground (arith, z, e))
  | no n ↦
      let here : get_elem? pool.records (p - 1) ≡ some r = ground (arith, n, e) in
      let at =
        get_elem?-set_self pool.records (p - 1) r' (get_elem?-lt pool.records (p - 1) r here) in
      (
        record pool { records = set pool.records (p - 1) r' },
        ground (arith, n, here),
        ground (arith, n, at),
        λ q. refl,
      )
]

-- An address below the first arena is in no arena.
pub get_arena-below : (p : ℕ) (pool : MemoryArenaPool) → p < pool.arena_pool → get_arena p pool ≡ 0
unfolding get_arena
get_arena-below p pool h = ground (arith, h)

-- What a pointer that is not null reads is the element of the array.
pub load-get_elem? :
    (pool : MemoryArenaPool) (p : ℕ) (r : ArenaRecord)
    → p ≢ 0
    → load pool p ≡ some r
    → get_elem? pool.records (p - 1) ≡ some r
unfolding load
load-get_elem? pool p r n e = ground (arith, n, e)
