-- ===== src/Memory/FixedAllocator/FreeNodes.antt =====
-- fixed_allocator.cpp: the allocator as a stack of free blocks.
use hologine.Base.{
  Bool, true, Option, some, none, ◌>>=◌, ℕ, ◌≡◌, refl, ap, false, ◌≢◌, List, [], ◌∷◌, ◌++◌,
  Bool-cases, inl, inr, ◌==◌, ltb, if◌then◌else◌, arith,
}
use hologine.Memory.FixedAllocator.{FixedAllocator, Memory, store, allocate, deallocate}

-- The free nodes that are found from an address on, down to a null pointer.
abbrev pub Chain : Memory → ℕ → List ℕ → Type 0
Chain m p [] = p ≡ 0
Chain m p (x ∷ xs) = (p ≡ x) × (x ≢ 0) × Chain m (m x) xs

abbrev pub AreAccessible : (ℕ → Bool) → List ℕ → Type 0
AreAccessible accessible [] = Unit
AreAccessible accessible (x ∷ xs) = (accessible x ≡ true) × AreAccessible accessible xs

abbrev pub IsFresh : ℕ → List ℕ → Type 0
IsFresh x [] = Unit
IsFresh x (y ∷ ys) = (x ≢ y) × IsFresh x ys

abbrev pub Free : FixedAllocator → List ℕ → Type 0
Free a xs = Chain a.memory a.free_nodes xs × AreAccessible a.accessible xs

pub Chain-store :
    (m : Memory) (p x next : ℕ) (ys : List ℕ)
    → IsFresh x ys
    → Chain m p ys
    → Chain (store m x next) p ys
Chain-store m p x next [] f c = c
Chain-store m p x next (y ∷ ys) (n, f) (e, z, c) =
    (e, z, ground (arith, n, Chain-store m (m y) x next ys f c))

pub store_self : (m : Memory) (p next : ℕ) → store m p next p ≡ next
store_self m p next = ground arith

-- What a client does: it asks for a block, gives one back, or writes to one that it holds.
pub data Request : Type 0 where
  get : ℕ → Request
  put : ℕ → Request
  write : ℕ → ℕ → Request

-- The answers of a request, `none` for an access outside of the committed pages.
pub step : Request → FixedAllocator → Option (List ℕ × FixedAllocator)
step (get size) a = do (p, _, a') ← allocate size a; some (p ∷ [], a')
step (put pointer) a = do a' ← deallocate pointer a; some ([], a')
step (write pointer value) a =
    if a.accessible pointer
    then some ([], record a { memory = store a.memory pointer value })
    else none

pub run_allocator : List Request → FixedAllocator → Option (List ℕ × FixedAllocator)
unfolding step
run_allocator [] a = some ([], a)
run_allocator (r ∷ rs) a = do
  (answers, a') ← step r a
  (rest, last) ← run_allocator rs a'
  some (answers ++ rest, last)

-- The allocator promises a stack of blocks: a request is answered by the block on top, and by a
-- null pointer if it is too large or no block is left.
unfoldable pub spec_step : ℕ → Request → List ℕ → List ℕ × List ℕ
spec_step limit (get size) [] = (0 ∷ [], [])
spec_step limit (get size) (x ∷ stack) =
    if ltb limit size then (0 ∷ [], x ∷ stack) else (x ∷ [], stack)
spec_step limit (put pointer) stack = ([], pointer ∷ stack)
spec_step limit (write pointer value) stack = ([], stack)

pub spec_run : ℕ → List Request → List ℕ → List ℕ × List ℕ
unfolding spec_step
spec_run limit [] stack = ([], stack)
spec_run limit (r ∷ rs) stack =
    let (answers, after) = spec_step limit r stack in
    let (rest, last) = spec_run limit rs after in (answers ++ rest, last)

-- A client keeps to the blocks that it holds: those on the stack are neither given back again nor
-- written to, and what it gives back or writes to lies in the committed pages.
abbrev pub IsAllowed : (ℕ → Bool) → Request → List ℕ → Type 0
IsAllowed accessible (get size) stack = Unit
IsAllowed accessible (put pointer) stack =
    (pointer ≢ 0) × IsFresh pointer stack × (accessible pointer ≡ true)
IsAllowed accessible (write pointer value) stack =
    IsFresh pointer stack × (accessible pointer ≡ true)

abbrev pub AreAllowed : ℕ → (ℕ → Bool) → List Request → List ℕ → Type 0
AreAllowed limit accessible [] stack = Unit
AreAllowed limit accessible (r ∷ rs) stack =
    IsAllowed accessible r stack × AreAllowed limit accessible rs (spec_step limit r stack).1

-- A block that is given back stands in front of those that were free.
pub deallocate-Free :
    (a : FixedAllocator) (p : ℕ) (xs : List ℕ)
    → p ≢ 0
    → IsFresh p xs
    → a.accessible p ≡ true
    → Free a xs
    → let a' = record a { free_nodes = p; memory = store a.memory p a.free_nodes } in
      (deallocate p a ≡ some a') × Free a' (p ∷ xs)
unfolding deallocate
deallocate-Free a p xs n f h (c, d) = (
  ground (arith, h),
  (
    (
      refl,
      n,
      rw (store_self a.memory p a.free_nodes)
          (Chain-store a.memory a.free_nodes p a.free_nodes xs f c),
    ),
    (h, d),
  ),
)

abbrev Follows : Request → FixedAllocator → List ℕ → Type 0
Follows r a stack =
    (a' : FixedAllocator) × (step r a ≡ some ((spec_step a.object_size r stack).0, a'))
    × Free a' (spec_step a.object_size r stack).1
    × (a'.object_size ≡ a.object_size)
    × (a'.accessible ≡ a.accessible)

step_refines :
    (r : Request) (a : FixedAllocator) (stack : List ℕ)
    → Free a stack
    → IsAllowed a.accessible r stack
    → Follows r a stack
unfolding step spec_step allocate
step_refines (get size) a [] (c, d) w = (a, ground (arith, c), (c, d), refl, refl)
step_refines (get size) a (x ∷ stack) ((e, z, c), (h, d)) w =
    let m : (a.free_nodes == 0) ≡ false = ground (arith, e, z) in
    elim (Bool-cases (ltb a.object_size size)) [
      | inl y ↦ (a, rw y refl, rw y ((e, z, c), (h, d)), refl, refl)
      | inr n ↦
          let a' = record a { free_nodes = a.memory x } in
          let reads : a.accessible a.free_nodes ≡ true = rw e h in
          (
            a',
            rw (n, m, reads)
                (ap (λ (t : ℕ). some (t ∷ [], record a { free_nodes = a.memory t })) e),
            rw n (c, d),
            refl,
            refl,
          )
    ]
step_refines (put pointer) a stack c (n, f, h) =
    let (e, free) = deallocate-Free a pointer stack n f h c in
    (_, ground (arith, e), free, refl, refl)
step_refines (write pointer value) a stack (c, d) (f, h) = (
  record a { memory = store a.memory pointer value },
  ground (arith, h),
  (Chain-store a.memory a.free_nodes pointer value stack f c, d),
  refl,
  refl,
)

-- From an allocator whose free list holds the blocks of a stack, every sequence of requests of a
-- client that keeps to the blocks that it holds, all in committed pages, runs without a fault and is
-- answered as that stack answers it, and the free list holds the blocks of the stack afterwards.
pub run_allocator_refines :
    (rs : List Request) (a : FixedAllocator) (stack : List ℕ)
    → Free a stack
    → AreAllowed a.object_size a.accessible rs stack
    → (a' : FixedAllocator) × (run_allocator rs a ≡ some ((spec_run a.object_size rs stack).0, a'))
      × Free a' (spec_run a.object_size rs stack).1
unfolding run_allocator spec_run
run_allocator_refines [] a stack c w = (a, refl, c)
run_allocator_refines (r ∷ rs) a stack c (v, w) =
    let (a₁, e, d, o, p) = step_refines r a stack c v in
    let (a', f, g) =
      run_allocator_refines rs a₁ (spec_step a.object_size r stack).1 d (rw (o, p) w) in
    (a', rw (e, f, o) refl, rw o at g)
