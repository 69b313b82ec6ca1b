-- ===== src/Threading/EventQueue.antt =====
-- hologine/core/threading/event_queue.cpp and event_queue.hpp: a queue of events as a list of
-- nodes. Each operation runs with the queue's mutex held, so operations follow one another.
pub mod Iteration
mod Tests
use hologine.Base.{
  ℕ, ◌+◌, ◌-◌, ◌*◌, ◌/◌, ◌%◌, Bool, true, false, Option, none, some, List, [], ◌∷◌, ◌==◌, ◌&&◌,
  if◌then◌else◌, ◌>>=◌, ◌>>◌, bit_or,
}

pub record EventNode : Type 0 where
  pub next : ℕ
  pub event : ℕ

-- Pointers to nodes and events are numbers, 0 for a null pointer; `nodes` is what the pointers to
-- nodes lead to.
pub record EventQueue : Type 0 where
  pub event_node_list_head : ℕ
  pub event_node_list_tail : ℕ
  pub nodes : ℕ → Option EventNode

pub record EventHeader : Type 0 where
  pub type : ℕ
  pub flags : ℕ
  pub queue : ℕ

pub event_queue : EventQueue
event_queue = record { event_node_list_head = 0; event_node_list_tail = 0; nodes = λ p. none }

abbrev pub store : (ℕ → Option EventNode) → ℕ → EventNode → ℕ → Option EventNode
store nodes p n q = if q == p then some n else nodes q

-- `node` is what `allocator.construct<event_node>()` returns. `none` is an access through a pointer
-- that leads to no node.
pub push : ℕ → ℕ → EventQueue → Option (Bool × EventQueue)
push node e q =
    let made = store q.nodes node (record { next = 0; event = e }) in
    if node == 0
    then some (false, q)
    else if q.event_node_list_tail == 0
    then some (true, record q { event_node_list_tail = node; nodes = made })
    else (do
      tail ← made q.event_node_list_tail
      some (
        true,
        record q {
          event_node_list_tail = node;
          nodes = store made q.event_node_list_tail (record tail { next = node });
        },
      ))

-- The node of the iterator.
pub begin : EventQueue → ℕ × EventQueue
begin q = (q.event_node_list_head, record q { event_node_list_head = 0; event_node_list_tail = 0 })

abbrev pub end : ℕ
end = 0

-- Iterators of one queue
abbrev pub equal : ℕ → ℕ → Bool
equal node other = node == other

-- The event of a node.
abbrev pub dereference : ℕ → EventQueue → Option ℕ
dereference node q = do n ← q.nodes node; some n.event

-- `this` is the queue's address; the header with its flag set, and the push. `none` is a failed
-- assertion too.
abbrev pub dispose : ℕ → ℕ → ℕ → EventHeader → EventQueue → Option (EventHeader × Bool × EventQueue)
unfolding push
dispose this node e header q =
    if header.queue == this
    then (do
      (pushed, after) ← push node e q
      some (record header { flags = bit_or header.flags 1 }, pushed, after))
    else none

-- The queues and the headers of events that pointers lead to.
pub record Events : Type 0 where
  pub queues : ℕ → Option EventQueue
  pub headers : ℕ → Option EventHeader

abbrev pub set_queue : ℕ → EventQueue → Events → Events
set_queue p q s = record s { queues = λ x. if x == p then some q else s.queues x }

abbrev pub deallocate_node : ℕ → EventQueue → EventQueue
deallocate_node node q = record q { nodes = λ x. if x == node then none else q.nodes x }

-- The increment of an iterator of the queue at `queue`: the event goes back to the queue of its
-- header, where `fresh` is the node that is constructed for it; the node of the iterator is
-- deallocated. The result is the next node.
abbrev pub increment : ℕ → ℕ → ℕ → Events → Option (ℕ × Events)
increment fresh queue node s = do
  q ← s.queues queue
  n ← q.nodes node
  header ← s.headers n.event
  owner ← s.queues header.queue
  (header', pushed, owner') ← dispose header.queue fresh n.event header owner
  let disposed =
      set_queue header.queue owner'
        (record s { headers = λ x. if x == n.event then some header' else s.headers x })
  q' ← disposed.queues queue
  some (n.next, set_queue queue (deallocate_node node q') disposed)
