-- ===== src/Threading/EventQueue/Iteration.antt =====
-- event_queue.cpp: what iteration over a queue delivers.
use hologine.Base.{
  ℕ, suc, ◌≡◌, refl, ◌≢◌, ◌⊎◌, inl, inr, Bool, true, false, not, Option, some, List, [], ◌∷◌, ◌==◌,
  ◌>>=◌, replicate, arith,
}
use native.Mathlib.Decide.{ℕ_discrete}
use hologine.Threading.EventQueue.{EventNode, EventQueue, event_queue, store, push, begin, end}

-- The calls on a queue. A `push_event` carries the node that the allocator constructs.
pub data Call : Type 0 where
  push_event : ℕ → ℕ → Call
  begin_iteration : Call

-- What the calls return: whether the pushes succeeded, and the iterators.
abbrev pub Results : Type 0
Results = List Bool × List ℕ

pub run_queue : List Call → EventQueue → Option (Results × EventQueue)
run_queue [] q = some (([], []), q)
run_queue (push_event node e ∷ cs) q = do
  (pushed, q₁) ← push node e q
  ((bs, is), q₂) ← run_queue cs q₁
  some ((pushed ∷ bs, is), q₂)
run_queue (begin_iteration ∷ cs) q = do
  ((bs, is), q₁) ← run_queue cs (begin q).1
  some ((bs, (begin q).0 ∷ is), q₁)

pub begins : List Call → ℕ
begins [] = 0
begins (push_event node e ∷ cs) = begins cs
begins (begin_iteration ∷ cs) = suc (begins cs)

abbrev pub pushes : List Call → List Bool
pushes [] = []
pushes (push_event node e ∷ cs) = not (node == 0) ∷ pushes cs
pushes (begin_iteration ∷ cs) = pushes cs

-- The head is null and the tail leads to a node, if it is not null.
record IsHeadless (q : EventQueue) : Type 0 where
  head : q.event_node_list_head ≡ 0
  tail :
      (q.event_node_list_tail ≡ 0) ⊎ ((n : EventNode) × (q.nodes q.event_node_list_tail ≡ some n))

false_of : (a : ℕ) → a ≢ 0 → (a == 0) ≡ false
false_of a h = ground (arith, h)

-- A node that is stored leaves something behind each pointer that led to something.
store-some :
    (nodes : ℕ → Option EventNode) (p q : ℕ) (n m : EventNode)
    → nodes q ≡ some m
    → (k : EventNode) × (store nodes p n q ≡ some k)
store-some nodes p q n m h = elim (ℕ_discrete q p) [
  | yes e ↦ (n, ground (arith, e))
  | no f ↦ (m, ground (arith, f, h))
]

store_self : (nodes : ℕ → Option EventNode) (p : ℕ) (n : EventNode) → store nodes p n p ≡ some n
store_self nodes p n = ground arith

abbrev fresh : ℕ → EventNode
fresh e = record { next = 0; event = e }

abbrev made : ℕ → ℕ → EventQueue → ℕ → Option EventNode
made node e q = store q.nodes node (fresh e)

module _ (node e : ℕ) (q : EventQueue) where
  push-null : node ≡ 0 → push node e q ≡ some (false, q)
  unfolding push
  push-null z = ground arith

  push-first :
      node ≢ 0
      → q.event_node_list_tail ≡ 0
      → push node e q ≡ some (true, record q { event_node_list_tail = node; nodes = made node e q })
  unfolding push
  push-first n z = ground arith

  push-behind :
      (t : EventNode)
      → node ≢ 0
      → q.event_node_list_tail ≢ 0
      → made node e q q.event_node_list_tail ≡ some t
      → push node e q
        ≡ some (
          true,
          record q {
            event_node_list_tail = node;
            nodes = store (made node e q) q.event_node_list_tail (record t { next = node });
          },
        )
  unfolding push
  push-behind t n z h = rw (false_of node n, false_of q.event_node_list_tail z, h) refl

made-tail :
    (node e : ℕ) (q : EventQueue)
    → IsHeadless q
    → q.event_node_list_tail ≢ 0
    → (t : EventNode) × (made node e q q.event_node_list_tail ≡ some t)
made-tail node e q h m = elim h.tail [
  | inl z ↦ absurd (m z)
  | inr (n, g) ↦ store-some q.nodes node q.event_node_list_tail (fresh e) n g
]

push-IsHeadless :
    (node e : ℕ) (q : EventQueue)
    → IsHeadless q
    → (after : EventQueue) × (push node e q ≡ some (not (node == 0), after)) × IsHeadless after
push-IsHeadless node e q h = elim (ℕ_discrete node 0) [
  | yes z ↦ (q, rw (push-null node e q z) (ground (arith, z)), h)
  | no n ↦ elim (ℕ_discrete q.event_node_list_tail 0) [
    | yes y ↦ (
      record q { event_node_list_tail = node; nodes = made node e q },
      rw (push-first node e q n y) (ground (arith, n)),
      record { head = h.head; tail = inr (fresh e, store_self q.nodes node (fresh e)) },
    )
    | no m ↦
        let (t, g) = made-tail node e q h m in
        (
          record q {
            event_node_list_tail = node;
            nodes = store (made node e q) q.event_node_list_tail (record t { next = node });
          },
          rw (push-behind node e q t n m g) (ground (arith, n)),
          record {
            head = h.head;
            tail = inr (
                store-some (made node e q) q.event_node_list_tail node (record t { next = node })
                  (fresh e) (store_self q.nodes node (fresh e)));
          },
        )
  ]
]

run_queue-IsHeadless :
    (cs : List Call) (q : EventQueue)
    → IsHeadless q
    → (last : EventQueue) × (run_queue cs q ≡ some ((pushes cs, replicate (begins cs) end), last))
unfolding run_queue begins begin
run_queue-IsHeadless [] q h = (q, refl)
run_queue-IsHeadless (push_event node e ∷ cs) q h =
    let (q₁, a, h₁) = push-IsHeadless node e q h in
    let (last, b) = run_queue-IsHeadless cs q₁ h₁ in (last, rw (a, b) refl)
run_queue-IsHeadless (begin_iteration ∷ cs) q h =
    let (last, b) = run_queue-IsHeadless cs (begin q).1 (record { head = refl; tail = inl refl }) in
    (last, rw (b, h.head) refl)

event_queue-IsHeadless : IsHeadless event_queue
unfolding event_queue
event_queue-IsHeadless = record { head = refl; tail = inl refl }

-- A queue on which only `push` and `begin` were called never has a head, since `push` sets the tail
-- alone: every sequence of such calls runs without a fault, each push of a node that the
-- allocator could construct reports success, and every iterator that `begin` returns equals
-- `end()`, so that no event is ever delivered.
pub run_queue-end :
    (cs : List Call)
    → (last : EventQueue) × (run_queue cs event_queue
        ≡ some ((pushes cs, replicate (begins cs) end), last))
run_queue-end cs = run_queue-IsHeadless cs event_queue event_queue-IsHeadless
