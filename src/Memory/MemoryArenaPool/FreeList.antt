-- ===== src/Memory/MemoryArenaPool/FreeList.antt =====
-- memory_arena_pool.cpp: the list of free arenas.
use hologine.Base.{
  ℕ, ◌-◌, ◌≡◌, refl, ◌∙◌, ◌≢◌, Option, some, List, [], ◌∷◌, get_elem?, set, arith,
  get_elem?-set_self, get_elem?-set_other, get_elem?-lt, if◌then◌else◌, ◌==◌, ◌>>=◌,
}
use hologine.Memory.MemoryArenaPool.{
  ArenaRecord, MemoryArenaPool, Answers, load, store, pop_arena, take_arena, give_arena,
}

-- The records that are found from a pointer on by following `next`, up to a null pointer.
abbrev pub Chain : List ArenaRecord → ℕ → List ℕ → Type 0
Chain records p [] = p ≡ 0
Chain records p (x ∷ xs) =
    (p ≡ x)
    × (x ≢ 0)
    × ((r : ArenaRecord) × (get_elem? records (x - 1) ≡ some r) × Chain records r.next xs)

infix 40 ◌∉◌
abbrev pub ◌∉◌ : ℕ → List ℕ → Type 0
x ∉ [] = Unit
x ∉ (y ∷ ys) = (x ≢ y) × (x ∉ ys)

abbrev pub Free : MemoryArenaPool → List ℕ → Type 0
Free pool xs = Chain pool.records pool.next_free_arena xs

Chain-set :
    (records : List ArenaRecord) (p x : ℕ) (r : ArenaRecord) (ys : List ℕ)
    → x ≢ 0
    → x ∉ ys
    → Chain records p ys
    → Chain (set records (x - 1) r) p ys
Chain-set records p x r [] n h c = c
Chain-set records p x r (y ∷ ys) n (m, h) (e, z, (s, g, c)) = (
  e,
  z,
  (
    s,
    get_elem?-set_other records (x - 1) (y - 1) r (omega (arith, n, m, z)) ∙ g,
    Chain-set records s.next x r ys n h c,
  ),
)

-- A pool whose free list holds an arena hands out its first one and keeps the others.
pub take_arena-Free :
    (answers : Answers) (pool : MemoryArenaPool) (x : ℕ) (xs : List ℕ)
    → Free pool (x ∷ xs)
    → (after : MemoryArenaPool) × (take_arena answers pool ≡ some (x, after))
      × Free after xs
      × (after.records ≡ pool.records)
unfolding take_arena pop_arena load
take_arena-Free answers pool x xs (e, z, (r, g, c)) =
    (record pool { next_free_arena = r.next }, ground (arith, e, z, g), c, refl)

-- What `give_arena` makes of the list: the record, and behind it what its `next` leads to.
give_arena-Chain :
    (pool : MemoryArenaPool) (x next : ℕ) (r : ArenaRecord) (xs : List ℕ)
    → next ≡ (if pool.next_free_arena == 0 then r.next else pool.next_free_arena)
    → x ≢ 0
    → get_elem? pool.records (x - 1) ≡ some r
    → x ∉ xs
    → Chain pool.records next xs
    → (after : MemoryArenaPool) × (give_arena x pool ≡ some after) × Free after (x ∷ xs)
unfolding give_arena store load
give_arena-Chain pool x next r xs n z g m c =
    let given : ArenaRecord = record r {
      allocator = 0;
      free_node_count = 0;
      free_node_list = 0;
      previous = 0;
      next = next;
    } in
    (
      record pool { records = set pool.records (x - 1) given; next_free_arena = x },
      ground (arith, n, z, g),
      (
        refl,
        z,
        (
          given,
          get_elem?-set_self pool.records (x - 1) given (get_elem?-lt pool.records (x - 1) r g),
          Chain-set pool.records next x given xs z m c,
        ),
      ),
    )

-- A pool whose free list holds an arena takes back another one that is in the array and not on the
-- list: `give_arena` puts it first.
pub give_arena-Free :
    (pool : MemoryArenaPool) (x y : ℕ) (r : ArenaRecord) (ys : List ℕ)
    → x ≢ 0
    → get_elem? pool.records (x - 1) ≡ some r
    → x ∉ (y ∷ ys)
    → Free pool (y ∷ ys)
    → (after : MemoryArenaPool) × (give_arena x pool ≡ some after) × Free after (x ∷ y ∷ ys)
give_arena-Free pool x y r ys z g m (e, n, c) =
    give_arena-Chain pool x pool.next_free_arena r (y ∷ ys) (ground (arith, e, n)) z g m (e, n, c)

-- Two arenas are taken, the first one is given back, and two are taken again.
abbrev pub take_and_return : Answers → MemoryArenaPool → Option (List ℕ × MemoryArenaPool)
take_and_return answers pool = do
  (a, p₁) ← take_arena answers pool
  (b, p₂) ← take_arena answers p₁
  p₃ ← give_arena a p₂
  (c, p₄) ← take_arena answers p₃
  (d, p₅) ← take_arena answers p₄
  some (a ∷ b ∷ c ∷ d ∷ [], p₅)

-- With the free list empty `give_arena` leaves `next` as it is, though the arena that it leads to
-- may be in use: from a pool with two free arenas, taking both and giving the first one back makes
-- the next two calls of `take_arena` return both again, so the second one is handed out twice.
pub take_arena-twice :
    (answers : Answers) (pool : MemoryArenaPool) (x y : ℕ)
    → x ≢ y
    → Free pool (x ∷ y ∷ [])
    → (last : MemoryArenaPool) × (take_and_return answers pool ≡ some (x ∷ y ∷ x ∷ y ∷ [], last))
take_arena-twice answers pool x y n (e, z, (r, g, (e₂, z₂, (s, g₂, e₃)))) =
    let (p₁, t₁, f₁, s₁) =
      take_arena-Free answers pool x (y ∷ []) (e, z, (r, g, (e₂, z₂, (s, g₂, e₃)))) in
    let (p₂, t₂, f₂, s₂) = take_arena-Free answers p₁ y [] f₁ in
    let q : Chain p₂.records r.next (y ∷ []) = rw (s₂, s₁) (e₂, z₂, (s, g₂, e₃)) in
    let (p₃, t₃, f₃) =
      give_arena-Chain p₂ x r.next r (y ∷ []) (ground (arith, f₂)) z (rw (s₂, s₁) g) (n, tt) q in
    let (p₄, t₄, f₄, s₄) = take_arena-Free answers p₃ x (y ∷ []) f₃ in
    let (p₅, t₅, f₅, s₅) = take_arena-Free answers p₄ y [] f₄ in (p₅, rw (t₁, t₂, t₃, t₄, t₅) refl)
