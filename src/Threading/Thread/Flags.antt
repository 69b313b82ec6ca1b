-- ===== src/Threading/Thread/Flags.antt =====
-- thread.cpp: the flags that the operations leave.
use hologine.Base.{
  ℕ, ◌≡◌, refl, ◌⊎◌, inl, inr, Bool, true, false, List, [], ◌∷◌, ◌++◌, ◌==◌, if◌then◌else◌,
}
use hologine.Exception.Codes.{ExceptionCode}
use hologine.Threading.Thread.{
  Thread, Effect, push_exception, begin_thread, resume_thread, wait_thread, close_handle, thread,
  thread_default, init_argument, start, start_callback, create_thread, join, destroy,
  set_exceptions_flag, set_allocator, set_argument_flag,
}

pub data Operation : Type 0 where
  start_thread : Bool → Operation
  start_with : ℕ → ℕ → ℕ → Operation
  join_with : Bool → ℕ → Operation
  set_exceptions : Bool → Operation
  use_allocator : ℕ → Operation
  destruct : Bool → ℕ → Operation

pub step : Operation → Thread → List Effect × Thread
unfolding start start_callback join set_exceptions_flag set_allocator destroy
step (start_thread ok) t = start ok t
step (start_with handle callback userdata) t = start_callback handle callback userdata t
step (join_with ok status) t = let (returned, effects, t') = join ok status t in (effects, t')
step (set_exceptions enable) t = set_exceptions_flag enable t
step (use_allocator allocator) t = set_allocator allocator t
step (destruct ok status) t = destroy ok status t

pub run_operations : List Operation → Thread → List Effect × Thread
unfolding step
run_operations [] t = ([], t)
run_operations (o ∷ os) t =
    let (effects, t') = step o t in let (rest, t'') = run_operations os t' in (effects ++ rest, t'')

-- No thread is resumed, and none is waited for.
abbrev pub NeverRuns : List Effect → Type 0
NeverRuns [] = Unit
NeverRuns (push_exception e ∷ es) = NeverRuns es
NeverRuns (begin_thread ∷ es) = NeverRuns es
NeverRuns (resume_thread ∷ es) = ⊥
NeverRuns (wait_thread ∷ es) = ⊥
NeverRuns (close_handle ∷ es) = ⊥

-- At most the exceptions flag is set.
abbrev pub IsIdle : Thread → Type 0
IsIdle t = (t.flags ≡ 0) ⊎ (t.flags ≡ 1)

abbrev Keeps : List Effect × Thread → Type 0
Keeps (effects, t) = NeverRuns effects × IsIdle t

if-Keeps :
    (b : Bool) (r r' : List Effect × Thread) → Keeps r → Keeps r' → Keeps (if b then r else r')
if-Keeps true r r' k k' = k
if-Keeps false r r' k k' = k'

create_thread-Keeps : (handle : ℕ) (t : Thread) → IsIdle t → Keeps (create_thread handle t)
create_thread-Keeps handle t e =
    if-Keeps (handle == 0)
      (begin_thread ∷ push_exception ExceptionCode.platform ∷ [], record t { thread_handle = 0 })
      (begin_thread ∷ [], record t { thread_handle = handle }) (tt, e) (tt, e)

start_callback-idle :
    (handle callback userdata : ℕ) (t : Thread)
    → IsIdle t
    → start_callback handle callback userdata t ≡ (
        if callback == 0
        then (push_exception ExceptionCode.invalid_argument ∷ [], t)
        else create_thread handle (record t { callback = callback; userdata = userdata }))
unfolding start_callback
start_callback-idle handle callback userdata t (inl e) = rw e refl
start_callback-idle handle callback userdata t (inr e) = rw e refl

-- On a thread with no flag but perhaps the one for exceptions, the tests of every operation compute.
step-Keeps : (o : Operation) (t : Thread) → IsIdle t → Keeps (step o t)
unfolding step start join destroy set_exceptions_flag set_argument_flag set_allocator
step-Keeps (start_thread ok) t (inl e) = rw e (tt, inl refl)
step-Keeps (start_thread ok) t (inr e) = rw e (tt, inr refl)
step-Keeps (start_with handle callback userdata) t e =
    let given = record t { callback = callback; userdata = userdata } in
    rw (start_callback-idle handle callback userdata t e) (
      if-Keeps (callback == 0) (push_exception ExceptionCode.invalid_argument ∷ [], t)
        (create_thread handle given) (tt, e) (create_thread-Keeps handle given e))
step-Keeps (join_with ok status) t (inl e) = rw e (tt, inl refl)
step-Keeps (join_with ok status) t (inr e) = rw e (tt, inr refl)
step-Keeps (set_exceptions true) t (inl e) = rw e (tt, inr refl)
step-Keeps (set_exceptions true) t (inr e) = rw e (tt, inr refl)
step-Keeps (set_exceptions false) t (inl e) = rw e (tt, inl refl)
step-Keeps (set_exceptions false) t (inr e) = rw e (tt, inl refl)
step-Keeps (use_allocator allocator) t (inl e) = rw e (tt, inl refl)
step-Keeps (use_allocator allocator) t (inr e) = rw e (tt, inr refl)
step-Keeps (destruct ok status) t (inl e) = rw e (tt, inl refl)
step-Keeps (destruct ok status) t (inr e) = rw e (tt, inr refl)

NeverRuns-append : (es fs : List Effect) → NeverRuns es → NeverRuns fs → NeverRuns (es ++ fs)
NeverRuns-append [] fs n m = m
NeverRuns-append (push_exception e ∷ es) fs n m = NeverRuns-append es fs n m
NeverRuns-append (begin_thread ∷ es) fs n m = NeverRuns-append es fs n m
NeverRuns-append (resume_thread ∷ es) fs n m = absurd n
NeverRuns-append (wait_thread ∷ es) fs n m = absurd n
NeverRuns-append (close_handle ∷ es) fs n m = absurd n

run_operations-Keeps : (os : List Operation) (t : Thread) → IsIdle t → Keeps (run_operations os t)
unfolding run_operations
run_operations-Keeps [] t i = (tt, i)
run_operations-Keeps (o ∷ os) t i =
    let (n, j) = step-Keeps o t i in
    let (m, k) = run_operations-Keeps os (step o t).1 j in
    (NeverRuns-append (step o t).0 (run_operations os (step o t).1).0 n m, k)

-- The constructor with a callback leaves no flag set, whether or not the system creates the thread.
thread-IsIdle :
    (stale handle callback userdata : ℕ) → IsIdle (thread stale handle callback userdata).1
unfolding thread
thread-IsIdle stale handle callback userdata =
    let given : Thread = init_argument stale callback userdata in
    (if-Keeps (callback == 0)
      (push_exception ExceptionCode.invalid_argument ∷ [], thread_default stale)
      (create_thread handle given) (tt, inl refl) (create_thread-Keeps handle given (inl refl))).1

start-idle :
    (ok : Bool) (t : Thread)
    → IsIdle t
    → start ok t ≡ (push_exception ExceptionCode.invalid_operation ∷ [], t)
unfolding start
start-idle ok t (inl e) = rw e refl
start-idle ok t (inr e) = rw e refl

-- No sequence of operations on a thread that was constructed resumes the thread or waits for it, since
-- no operation sets the flags of a thread that is created or started: `start` always reports an
-- invalid operation.
pub run_operations-NeverRuns :
    (os : List Operation) (stale handle callback userdata : ℕ) (ok : Bool)
    → let t = (run_operations os (thread stale handle callback userdata).1).1 in
      NeverRuns (run_operations os (thread stale handle callback userdata).1).0
      × (start ok t ≡ (push_exception ExceptionCode.invalid_operation ∷ [], t))
unfolding start
run_operations-NeverRuns os stale handle callback userdata ok =
    let (n, i) =
      run_operations-Keeps os (thread stale handle callback userdata).1
        (thread-IsIdle stale handle callback userdata) in
    (n, start-idle ok (run_operations os (thread stale handle callback userdata).1).1 i)
