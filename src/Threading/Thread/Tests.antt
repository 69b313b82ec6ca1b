-- ===== src/Threading/Thread/Tests.antt =====
-- Runs of hologine/core/threading/thread.cpp.
use hologine.Base.{◌≡◌, true, List, [], ◌∷◌}
use hologine.Exception.Codes.{ExceptionCode}
use hologine.Threading.Thread.{Thread, push_exception, thread, start}
use hologine.Threading.Thread.Flags.{
  Operation, start_thread, start_with, join_with, set_exceptions, use_allocator, run_operations,
  NeverRuns, run_operations-NeverRuns,
}

abbrev operations : List Operation
operations =
    set_exceptions true
    ∷ use_allocator 8
    ∷ start_thread true
    ∷ join_with true 3
    ∷ start_with 6 7 0
    ∷ []

abbrev behind : Thread
behind = (run_operations operations (thread 0 5 7 9).1).1

run_operations-NeverRuns_example :
    NeverRuns (run_operations operations (thread 0 5 7 9).1).0
    × (start true behind ≡ (push_exception ExceptionCode.invalid_operation ∷ [], behind))
run_operations-NeverRuns_example = run_operations-NeverRuns operations 0 5 7 9 true
