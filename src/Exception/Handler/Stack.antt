-- ===== src/Exception/Handler/Stack.antt =====
-- exception.cpp: what a thread sees of its handler.
use hologine.Base.{
  ℕ, ◌⊎◌, ap, ◌∙◌, ◌≡◌, refl, Bool, true, false, Option, none, some, List, [], ◌∷◌, ◌++◌, arith,
  ◌==◌, if◌then◌else◌, ◌>>=◌, length, set, length-set, get_elem?-some, Bool-cases, inl, inr,
}
use hologine.Exception.Codes.{ExceptionCode}
use hologine.Exception.Handler.{
  ExceptionHandlerNode, ExceptionHandler, ThreadState, Invocation, max_exception_stack_size,
  enable_exceptions, disable_exceptions, push_exception, get_last_exception,
}

-- The calls of a thread. An `enable` carries what the allocator would construct.
pub data Call : Type 0 where
  enable : Option ExceptionHandler → ℕ → ℕ → Call
  disable : Call
  push : ExceptionCode → ℕ → Call
  last : Call

-- What the program sees: the invocations of callbacks, and what `get_last_exception` returns.
abbrev pub Seen : Type 0
Seen = List Invocation × List ExceptionCode

abbrev after : Seen → Seen → Seen
after (a, b) (c, d) = (a ++ c, b ++ d)

pub step : Call → ThreadState → Option (Seen × ThreadState)
step (enable fresh allocator callback) t =
    some (([], []), (enable_exceptions fresh allocator callback t).1)
step disable t = some (([], []), (disable_exceptions t).1)
step (push code platform_code) t = do
  (invocations, t') ← push_exception code platform_code t
  some ((invocations, []), t')
step last t = do (code, t') ← get_last_exception t; some (([], code ∷ []), t')

pub run : List Call → ThreadState → Option (Seen × ThreadState)
run [] t = some (([], []), t)
run (c ∷ cs) t = do (seen, t') ← step c t; (rest, t'') ← run cs t'; some (after seen rest, t'')

-- An abstract handler is the callback in force, if exceptions are enabled.
abbrev pub abstract : ThreadState → Option ℕ
abstract t = elim t.exception_handler [ none ↦ none | some handler ↦ some handler.callback ]

-- It tells the callback of every exception and remembers none; `none` is the call of a null pointer.
pub spec_step : Bool → Call → Option ℕ → Option (Seen × Option ℕ)
spec_step false (enable fresh allocator callback) a = some (([], []), a)
spec_step true (enable fresh allocator callback) (some old) = some (([], []), some callback)
spec_step true (enable none allocator callback) none = some (([], []), none)
spec_step true (enable (some handler) allocator callback) none =
    some (([], []), if allocator == 0 then none else some callback)
spec_step valid disable a = some (([], []), none)
spec_step valid (push code platform_code) none = some (([], []), none)
spec_step valid (push code platform_code) (some callback) =
    if callback == 0
    then none
    else some (
      (record { callback = callback; code = code; platform_code = platform_code } ∷ [], []),
      some callback,
    )
spec_step valid last a = some (([], ExceptionCode.none ∷ []), a)

pub spec_run : Bool → List Call → Option ℕ → Option Seen
spec_run valid [] a = some ([], [])
spec_run valid (c ∷ cs) a = do
  (seen, a') ← spec_step valid c a
  rest ← spec_run valid cs a'
  some (after seen rest)

-- What is seen of a run.
abbrev pub observed : Option (Seen × ThreadState) → Option Seen
observed r = do (seen, t) ← r; some seen

-- A handler whose stack has its array's size and holds nothing.
abbrev pub IsIdle : ThreadState → Type 0
IsIdle t = elim t.exception_handler [
  | none ↦ Unit {0}
  | some handler ↦
      (length handler.exception_stack ≡ max_exception_stack_size)
      × (handler.exception_stack_top ≡ 0)
]

-- What the allocator constructs has an array of that size.
abbrev pub HasArrays : List Call → Type 0
HasArrays [] = Unit
HasArrays (enable (some handler) allocator callback ∷ cs) =
    (length handler.exception_stack ≡ max_exception_stack_size) × HasArrays cs
HasArrays (_ ∷ cs) = HasArrays cs

record StepRefines (c : Call) (t : ThreadState) (r : Seen × ThreadState) : Type 0 where
  runs : step c t ≡ some r
  idle : IsIdle r.1
  same : r.1.is_valid ≡ t.is_valid
  seen : spec_step t.is_valid c (abstract t) ≡ some (r.0, abstract r.1)

-- The call faults, and so does that of the abstract handler.
abbrev Faults : Call → ThreadState → Type 0
Faults c t = (step c t ≡ none) × (spec_step t.is_valid c (abstract t) ≡ none)

abbrev thread : Bool → Option ExceptionHandler → ThreadState
thread valid handler = record { is_valid = valid; exception_handler = handler }

-- What a push leaves in the array: the first node is copied to the end and then overwritten.
abbrev pushed : ExceptionHandler → ExceptionHandlerNode → ExceptionHandlerNode → ExceptionHandler
pushed h first node = record h {
  exception_stack = set (set h.exception_stack 31 first) 31 node;
  platform_exception_code = 0;
}

step_refines :
    (c : Call) (valid : Bool) (h : Option ExceptionHandler)
    → HasArrays (c ∷ [])
    → IsIdle (thread valid h)
    → ((r : Seen × ThreadState) × StepRefines c (thread valid h) r) ⊎ Faults c (thread valid h)
unfolding step spec_step enable_exceptions disable_exceptions push_exception get_last_exception
step_refines (enable fresh allocator callback) false h w i =
    inl ((([], []), thread false h), ground arith)
step_refines (enable fresh allocator callback) true (some old) w i =
    inl (_, record { runs = refl; idle = i; same = refl; seen = refl })
step_refines (enable none allocator callback) true none w i =
    inl ((([], []), thread true none), ground arith)
step_refines (enable (some handler) allocator callback) true none w i =
    let made : ExceptionHandler = record handler {
      exception_stack_top = 0;
      allocator = allocator;
      callback = callback;
    } in
    elim (Bool-cases (allocator == 0)) [
      | inl y ↦ inl ((([], []), thread true none), ground (arith, y))
      | inr n ↦ inl ((([], []), thread true (some made)), ground (arith, n))
    ]
step_refines disable valid none w i =
    inl (_, record { runs = refl; idle = tt; same = refl; seen = refl })
step_refines disable valid (some h) w i =
    inl (_, record { runs = refl; idle = tt; same = refl; seen = refl })
step_refines (push code platform_code) valid none w i =
    inl (_, record { runs = refl; idle = tt; same = refl; seen = refl })
step_refines (push code platform_code) valid (some h) w i =
    let node : ExceptionHandlerNode = record {
      exception_code = code;
      platform_exception_code = platform_code;
    } in
    let (first, e) = get_elem?-some h.exception_stack 0 (omega arith) in
    elim (Bool-cases (h.callback == 0)) [
      | inl null ↦ inr (ground (arith, null))
      | inr there ↦ inl (
        (
          (record { callback = h.callback; code = code; platform_code = platform_code } ∷ [], []),
          thread valid (some (pushed h first node)),
        ),
        ground (
          arith,
          e,
          there,
          length-set h.exception_stack 31 first,
          length-set (set h.exception_stack 31 first) 31 node,
        ),
      )
    ]
step_refines last valid none w i =
    inl (_, record { runs = refl; idle = tt; same = refl; seen = refl })
step_refines last valid (some h) w i = inl (
  (([], ExceptionCode.none ∷ []), thread valid (some (record h { platform_exception_code = 0 }))),
  ground arith,
)

HasArrays-cons :
    (c : Call) (cs : List Call) → HasArrays (c ∷ cs) → HasArrays (c ∷ []) × HasArrays cs
HasArrays-cons (enable none allocator callback) cs w = (tt, w)
HasArrays-cons (enable (some handler) allocator callback) cs (l, w) = ((l, tt), w)
HasArrays-cons disable cs w = (tt, w)
HasArrays-cons (push code platform_code) cs w = (tt, w)
HasArrays-cons last cs w = (tt, w)

observed-after :
    (seen : Seen) (r : Option (Seen × ThreadState))
    → observed (r >>= λ x. some (after seen x.0, x.1))
      ≡ (observed r >>= λ rest. some (after seen rest))
observed-after seen none = refl
observed-after seen (some x) = refl

run_refines_from :
    (cs : List Call) (valid : Bool) (h : Option ExceptionHandler)
    → HasArrays cs
    → IsIdle (thread valid h)
    → observed (run cs (thread valid h)) ≡ spec_run valid cs (abstract (thread valid h))
unfolding run spec_run
run_refines_from [] valid h w i = refl
run_refines_from (c ∷ cs) valid h w i =
    let (w1, w2) = HasArrays-cons c cs w in
    elim (step_refines c valid h w1 i) [
      | inl (r, s) ↦
          let e = run_refines_from cs r.1.is_valid r.1.exception_handler w2 s.idle in
          let e' : observed (run cs r.1) ≡ spec_run valid cs (abstract r.1) =
            e ∙ ap (λ (b : Bool). spec_run b cs (abstract r.1)) s.same in
          rw (s.runs, s.seen)
            (observed-after r.0 (run cs r.1)
              ∙ ap (λ (o : Option Seen). o >>= λ rest. some (after r.0 rest)) e')
      | inr (faults, spec) ↦ ground (arith, faults, spec)
    ]

-- What is seen of every sequence of calls on a thread that has no handler, where the allocator
-- constructs handlers with an array of `max_exception_stack_size` nodes: the callback in force is
-- invoked for each exception that is pushed, in order and with its codes, and `get_last_exception`
-- returns `exception::none` each time, whatever was pushed before. The run faults where an
-- exception is pushed while the callback in force is a null pointer, and nowhere else.
pub run_refines :
    (valid : Bool) (cs : List Call)
    → HasArrays cs
    → observed (run cs (record { is_valid = valid; exception_handler = none }))
      ≡ spec_run valid cs none
run_refines valid cs w = run_refines_from cs valid none w tt
