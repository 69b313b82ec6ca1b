-- ===== src/Memory/FixedAllocator/Reserve.antt =====
-- fixed_allocator.cpp: the nodes that the constructor reserves.
use hologine.Base.{
  Bool, true, ℕ, zero, suc, ◌+◌, ◌-◌, ◌*◌, ◌/◌, ◌%◌, ◌^◌, ◌≤◌, ◌<◌, ◌≡◌, ◌≢◌, ◌∙◌, some, List, [],
  ◌∷◌, arith,
}
use hologine.Memory.Allocator.{align_pointer, get_pointer_distance}
use hologine.Memory.FixedAllocator.{
  FixedAllocator, sizeof_free_node, holds_word, deallocate, reserve_nodes, reserve_span, padded,
}
use hologine.Memory.FixedAllocator.FreeNodes.{Free, IsFresh, deallocate-Free}

-- The addresses of `k` nodes behind the one at `base`, from low to high, in front of a list.
abbrev pub reserved : ℕ → ℕ → ℕ → List ℕ → List ℕ
reserved base node_size zero xs = xs
reserved base node_size (suc k) xs = reserved base node_size k ((base + suc k * node_size) ∷ xs)

abbrev pub Above : ℕ → List ℕ → Type 0
Above p [] = Unit
Above p (y ∷ ys) = (p < y) × Above p ys

Above-IsFresh : (p : ℕ) (xs : List ℕ) → Above p xs → IsFresh p xs
Above-IsFresh p [] b = tt
Above-IsFresh p (y ∷ ys) (l, b) = (λ e. absurd (omega (arith, l, e)), Above-IsFresh p ys b)

Above-lower : (p q : ℕ) (xs : List ℕ) → q ≤ p → Above p xs → Above q xs
Above-lower p q [] l b = tt
Above-lower p q (y ∷ ys) l (m, b) = (omega (arith, l, m), Above-lower p q ys l b)

-- One round of the loop.
reserve_nodes-step :
    (fuel base node_size p q : ℕ) (a a' : FixedAllocator)
    → base < p
    → (p + 2 ^ 64 - node_size) % 2 ^ 64 ≡ q
    → deallocate p a ≡ some a'
    → reserve_nodes (suc fuel) base node_size p a ≡ reserve_nodes fuel base node_size q a'
unfolding reserve_nodes
reserve_nodes-step fuel base node_size p q a a' l e d = rw (e, d) (ground (arith, l))

-- The words from `base` on, up to `limit`, lie in committed pages.
abbrev pub Covers : (ℕ → Bool) → ℕ → ℕ → Type 0
Covers accessible base limit =
    (p : ℕ) → base ≤ p → p + sizeof_free_node ≤ limit → accessible p ≡ true

-- With as much fuel as there are nodes behind the base, the loop ends at the base and has freed
-- these, if they lie in committed pages.
reserve_nodes_lem :
    (fuel k base node_size limit : ℕ) (a : FixedAllocator) (xs : List ℕ)
    → 0 < node_size
    → node_size ≤ base
    → k ≤ fuel
    → base + k * node_size < 2 ^ 64
    → base + k * node_size + sizeof_free_node ≤ limit
    → Covers a.accessible base limit
    → Free a xs
    → Above (base + k * node_size) xs
    → (a' : FixedAllocator) × (reserve_nodes fuel base node_size (base + k * node_size) a ≡ some a')
      × Free a' (reserved base node_size k xs)
unfolding reserve_nodes
reserve_nodes_lem zero zero base node_size limit a xs n l enough fits inside covers free above =
    (a, ground arith, free)
reserve_nodes_lem (suc fuel) zero base node_size limit a xs n l enough fits inside covers free
      above =
    (a, ground arith, free)
reserve_nodes_lem zero (suc k) base node_size limit a xs n l enough fits inside covers free above =
    absurd (omega (arith, enough))
reserve_nodes_lem (suc fuel) (suc k) base node_size limit a xs n l enough fits inside covers free
      above =
    let p = base + suc k * node_size in
    let next : (p + 2 ^ 64 - node_size) % 2 ^ 64 ≡ base + k * node_size = omega (arith, fits) in
    let less : base < p = omega (arith, n) in
    let (d, free₁) =
      deallocate-Free a p xs (λ z. absurd (omega (arith, less, z))) (Above-IsFresh p xs above)
        (covers p (omega (arith, less)) inside) free in
    let (a', made, free') =
      reserve_nodes_lem fuel k base node_size limit _ (p ∷ xs) n l (omega (arith, enough))
        (omega (arith, fits)) (omega (arith, inside)) covers free₁
        (omega (arith, n), Above-lower p (base + k * node_size) xs (omega arith) above) in
    (
      a',
      reserve_nodes-step fuel base node_size p (base + k * node_size) a _ less next d ∙ made,
      free',
    )

get_pointer_distance-same : (p : ℕ) → get_pointer_distance p p ≡ 0
unfolding get_pointer_distance
get_pointer_distance-same p = omega arith

last :
    (base k node_size : ℕ)
    → base + k * node_size < 2 ^ 64
    → (base + (suc k + 2 ^ 64 - 1) * node_size) % 2 ^ 64 ≡ base + k * node_size
last base k node_size fits =
    let f : suc k + 2 ^ 64 - 1 ≡ k + 2 ^ 64 = omega arith in
    let g : (k + 2 ^ 64) * node_size ≡ k * node_size + node_size * 2 ^ 64 = omega arith in
    rw (f, g) (omega (arith, fits))

-- A region of `max_size` committed bytes whose first address is aligned, and `k` + 1 nodes, all within
-- the region, by the number that the span is divided by: the constructor ends without a fault, and
-- the free blocks are the `k` nodes behind the first one, the lowest on top. The first node is not
-- among them, since the loop stops at the base. The fuel is enough.
pub reserve_span_lem :
    (stale base max_size alignment k : ℕ) (a : FixedAllocator)
    → align_pointer base alignment ≡ base
    → 0 < padded a.object_size alignment
    → padded a.object_size alignment ≤ base
    → max_size < 2 ^ 64
    → stale ≢ 0
    → max_size / stale ≡ suc k
    → base + k * padded a.object_size alignment < 2 ^ 64
    → k * padded a.object_size alignment + sizeof_free_node ≤ max_size
    → ((p : ℕ) → a.accessible p ≡ holds_word base max_size p)
    → a.free_nodes ≡ 0
    → (a' : FixedAllocator) × (reserve_span k stale base max_size alignment a ≡ some a')
      × Free a' (reserved base (padded a.object_size alignment) k [])
reserve_span_lem stale base max_size alignment k a aligned n l small divides count fits inside pages
      empty =
    let node_size = padded a.object_size alignment in
    let covers : Covers a.accessible base (base + max_size) =
      λ p low high. pages p ∙ (let z : p + 8 ≤ base + max_size = high in ground (arith, low, z)) in
    let (a', made, free) =
      reserve_nodes_lem k k base node_size (base + max_size) a [] n l (omega arith) fits
        (omega (arith, inside)) covers (empty, tt) tt in
    let distance = get_pointer_distance-same base in
    let span : (max_size + 2 ^ 64 - 0) % 2 ^ 64 ≡ max_size = omega (arith, small) in
    let first : (base + (suc k + 2 ^ 64 - 1) * node_size) % 2 ^ 64 ≡ base + k * node_size =
      last base k node_size fits in
    (a', rw (aligned, distance, span, count, first) (ground (arith, divides, made)), free)
