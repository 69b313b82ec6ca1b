-- ===== src/Threading/EventQueue/Tests.antt =====
-- The theorem on event queues at concrete calls.
use hologine.Base.{◌≡◌, some, List, [], ◌∷◌, replicate}
use hologine.Threading.EventQueue.{EventQueue, event_queue, end}
use hologine.Threading.EventQueue.Iteration.{
  Call, push_event, begin_iteration, run_queue, pushes, begins, run_queue-end,
}

abbrev calls : List Call
calls = push_event 8 1 ∷ push_event 16 2 ∷ begin_iteration ∷ push_event 0 3 ∷ begin_iteration ∷ []

run_queue-end_example :
    (last : EventQueue) × (run_queue calls event_queue
      ≡ some ((pushes calls, replicate (begins calls) end), last))
run_queue-end_example = run_queue-end calls
