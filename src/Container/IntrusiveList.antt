-- ===== src/Container/IntrusiveList.antt =====
-- hologine/core/container/intrusive_list.hpp: the list operations on nodes in a heap. A pointer is
-- an address, 0 is `nullptr`, and a heap gives the node at an address, if there is one. Access
-- through a pointer that leads to no node is a fault, `none`.
mod Cells
pub mod Linked
pub mod Insert
pub mod Remove
pub mod After
mod Tests
use hologine.Base.{ℕ, Bool, Option, none, some, ◌==◌, if◌then◌else◌, ◌>>=◌}

abbrev pub Ptr : Type 0
Ptr = ℕ

abbrev pub null : Ptr
null = 0

-- The two pointers that the operations ask of a node.
pub record Node : Type 0 where
  pub next : Ptr
  pub previous : Ptr

abbrev pub node : Ptr → Ptr → Node
node next previous = record { next = next; previous = previous }

abbrev pub Heap : Type 0
Heap = Ptr → Option Node

pub update : Heap → Ptr → Node → Heap
update h p n q = if q == p then some n else h q

pub load : Ptr → Heap → Option Node
load p h = if p == null then none else h p

-- `p->next = q` and `p->previous = q`
pub set_next : Ptr → Ptr → Heap → Option Heap
set_next p q h = do n ← load p h; some (update h p (record n { next = q }))

pub set_previous : Ptr → Ptr → Heap → Option Heap
set_previous p q h = do n ← load p h; some (update h p (record n { previous = q }))

-- An iterator is the node that it wraps.
abbrev pub increment : Ptr → Heap → Option Ptr
increment p h = do n ← load p h; some n.next

abbrev pub decrement : Ptr → Heap → Option Ptr
decrement p h = do n ← load p h; some n.previous

abbrev pub equal : Ptr → Ptr → Bool
equal p q = p == q

-- An assignment under `if (p != nullptr)`
abbrev pub unless_null : Ptr → (Heap → Option Heap) → Heap → Option Heap
unless_null p assign h = if p == null then some h else assign h

pub remove : Ptr → Heap → Option (Ptr × Heap)
remove p h = do
  n ← load p h
  let previous = n.previous
  let next = n.next
  h₁ ← unless_null previous (set_next previous next) h
  h₂ ← unless_null next (set_previous next previous) h₁
  some (p, h₂)

pub unlink : Ptr → Heap → Option (Ptr × Heap)
unlink p h = do
  (_, h₁) ← remove p h
  h₂ ← set_next p null h₁
  h₃ ← set_previous p null h₂
  some (p, h₃)

pub insert_before : Ptr → Ptr → Heap → Option (Ptr × Heap)
insert_before p position h = do
  n ← load position h
  let previous = n.previous
  h₁ ← unless_null previous (set_next previous p) h
  h₂ ← set_previous position p h₁
  h₃ ← set_next p position h₂
  h₄ ← set_previous p previous h₃
  some (p, h₄)

-- Under the first test the code assigns to `position->previous`, and then follows that pointer.
pub insert_after : Ptr → Ptr → Heap → Option (Ptr × Heap)
insert_after p position h = do
  n ← load position h
  let next = n.next
  h₁ ← unless_null next (set_previous position p) h
  n₁ ← load position h₁
  let previous = n₁.previous
  h₂ ← unless_null previous (set_next previous p) h₁
  h₃ ← set_next position p h₂
  h₄ ← set_next p next h₃
  h₅ ← set_previous p position h₄
  some (p, h₅)
