-- ===== src/Memory/MemoryArenaPool/Allocate.antt =====
-- memory_arena_pool.cpp: how `allocate_arena` makes an arena.
use hologine.Base.{
  Bool, ◌+◌, ◌*◌, ◌≤◌, ◌<◌, ◌≡◌, refl, ◌≢◌, true, false, some, length, get_elem?, set, arith,
  get_elem?-set_self, get_elem?-some, length-set, if◌then◌else◌,
}
use hologine.Memory.MemoryRegion.{grow}
use native.Mathlib.Decide.{ℕ_discrete, dec_le}
use hologine.Memory.MemoryArenaPool.{
  ArenaRecord, MemoryArenaPool, Answers, load, store, allocate_arena,
}
use hologine.Memory.MemoryArenaPool.Arenas.{IsValid, IsValid-set}

-- One more arena is allocated, whose record has the right base.
IsValid-extend :
    (pool : MemoryArenaPool) (new : ArenaRecord)
    → IsValid pool
    → pool.arena_count < pool.arena_reserved
    → get_elem? pool.records pool.arena_count ≡ some new
    → new.base ≡ pool.arena_pool + pool.arena_count * pool.arena_size
    → IsValid
        (record pool { next_free_arena = pool.arena_count + 1; arena_count = pool.arena_count + 1 })
IsValid-extend pool new v l g b = record {
  room = v.room;
  count = omega arith;
  head = omega (arith, v.room);
  links = v.links;
  bases = λ i r h k. elim (ℕ_discrete i pool.arena_count) [
    | yes e ↦ ground (arith, e, g, k, b)
    | no n ↦ v.bases i r (omega arith) k
  ];
}

abbrev larger : Answers → MemoryArenaPool → MemoryArenaPool
larger answers pool = record pool {
  region = (grow pool.arena_size answers.reserved answers.committed pool.region).2;
}

IsValid-larger :
    (answers : Answers) (pool : MemoryArenaPool) → IsValid pool → IsValid (larger answers pool)
IsValid-larger answers pool v = record {
  room = v.room;
  count = v.count;
  head = v.head;
  links = v.links;
  bases = v.bases;
}

module _ (answers : Answers) (pool : MemoryArenaPool) where
  allocate_arena-full :
      pool.arena_reserved ≤ pool.arena_count → allocate_arena answers pool ≡ some (false, pool)
  unfolding allocate_arena
  allocate_arena-full h = ground arith

  allocate_arena-failed :
      pool.arena_count < pool.arena_reserved
      → (grow pool.arena_size answers.reserved answers.committed pool.region).0 ≡ 0
      → allocate_arena answers pool ≡ some (false, larger answers pool)
  unfolding allocate_arena
  allocate_arena-failed h e = ground arith

  abbrev fresh : ArenaRecord → ArenaRecord
  fresh r = record r {
    base = pool.arena_pool + pool.arena_count * pool.arena_size;
    next = pool.next_free_arena;
  }

  abbrev extended : ArenaRecord → MemoryArenaPool
  extended r = record (larger answers pool) {
    records = set pool.records pool.arena_count (fresh r);
    next_free_arena = pool.arena_count + 1;
    arena_count = pool.arena_count + 1;
  }

  allocate_arena-fresh :
      (r : ArenaRecord)
      → pool.arena_count < pool.arena_reserved
      → (grow pool.arena_size answers.reserved answers.committed pool.region).0 ≢ 0
      → get_elem? pool.records pool.arena_count ≡ some r
      → allocate_arena answers pool ≡ some (true, extended r)
  unfolding allocate_arena load store
  allocate_arena-fresh r h e g = ground arith

pub allocate_arena-IsValid :
    (answers : Answers) (pool : MemoryArenaPool)
    → IsValid pool
    → (ok : Bool) × (after : MemoryArenaPool) × (allocate_arena answers pool ≡ some (ok, after))
      × IsValid after
      × (length after.records ≡ length pool.records)
      × (ok ≡ true → after.next_free_arena ≢ 0)
      × (after.arena_count ≡ pool.arena_count + (if ok then 1 else 0))
allocate_arena-IsValid answers pool v = elim (dec_le pool.arena_reserved pool.arena_count) [
  | yes h ↦ (false, pool, allocate_arena-full answers pool h, v, refl, λ t. cc, omega arith)
  | no h ↦
      elim (ℕ_discrete (grow pool.arena_size answers.reserved answers.committed pool.region).0 0) [
        | yes e ↦ (
          false,
          larger answers pool,
          allocate_arena-failed answers pool (omega arith) e,
          IsValid-larger answers pool v,
          refl,
          λ t. cc,
          omega arith,
        )
        | no n ↦
            let (r, g) = get_elem?-some pool.records pool.arena_count (omega (arith, v.room)) in
            let new = fresh answers pool r in
            let stored =
              IsValid-set (larger answers pool) pool.arena_count new (IsValid-larger answers pool v)
                v.head (λ l. absurd (omega arith)) in
            (
              true,
              extended answers pool r,
              allocate_arena-fresh answers pool r (omega arith) n g,
              IsValid-extend
                  (record (larger answers pool) { records = set pool.records pool.arena_count new })
                  new stored (omega arith)
                  (get_elem?-set_self pool.records pool.arena_count new (omega (arith, v.room)))
                  refl,
              length-set pool.records pool.arena_count new,
              λ t. (λ q. absurd (omega (arith, q))),
              refl,
            )
      ]
]
