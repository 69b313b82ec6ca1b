-- ===== src/Exception/Handler.antt =====
-- hologine/core/exception.cpp: the exception handler of a thread.
pub mod Stack
mod Tests
use hologine.Base.{
  ℕ, zero, suc, ◌+◌, ◌-◌, Bool, true, false, not, Option, none, some, List, [], ◌∷◌, ◌++◌, ltb,
  ◌==◌, if◌then◌else◌, ◌>>=◌, ◌>>◌, get_elem?, set,
}
use hologine.Exception.Codes.{ExceptionCode}

abbrev pub max_exception_stack_size : ℕ
max_exception_stack_size = 32

pub record ExceptionHandlerNode : Type 0 where
  pub exception_code : ExceptionCode
  pub platform_exception_code : ℕ

-- Callbacks and allocators are outside of the handler and are known by their addresses, 0 for a
-- null pointer.
pub record ExceptionHandler : Type 0 where
  pub exception_stack : List ExceptionHandlerNode
  pub exception_stack_top : ℕ
  pub platform_exception_code : ℕ
  pub callback : ℕ
  pub allocator : ℕ

-- `is_valid` says whether the thread local variable has a slot; a null pointer in it is `none`.
pub record ThreadState : Type 0 where
  pub is_valid : Bool
  pub exception_handler : Option ExceptionHandler

-- A call of a callback, with its arguments.
pub record Invocation : Type 0 where
  pub callback : ℕ
  pub code : ExceptionCode
  pub platform_code : ℕ

-- `holo_assert`
pub holo_assert : Bool → Option (Unit {0})
holo_assert true = some tt
holo_assert false = none

-- `fresh` is what `allocator->construct<exception_handler>()` returns: the uninitialised object,
-- or `none` for a null pointer.
pub enable_exceptions : Option ExceptionHandler → ℕ → ℕ → ThreadState → Bool × ThreadState
enable_exceptions fresh allocator callback t =
    if not t.is_valid then (false, t) else elim t.exception_handler [
      | some handler ↦
          (true, record t { exception_handler = some (record handler { callback = callback }) })
      | none ↦ if allocator == 0 then (false, t) else elim fresh [
        | none ↦ (false, t)
        | some handler ↦ (
          true,
          record t {
            exception_handler = some (record handler {
              exception_stack_top = 0;
              allocator = allocator;
              callback = callback;
            });
          },
        )
      ]
    ]

-- The new state, and the address of the allocator that destructs the handler, if there was one.
pub disable_exceptions : ThreadState → Option ℕ × ThreadState
disable_exceptions t = elim t.exception_handler [
  | none ↦ (none, t)
  | some handler ↦ (some handler.allocator, record t { exception_handler = none })
]

-- `std::copy(exception_stack, exception_stack + 1, exception_stack + max_exception_stack_size - 1)`:
-- the range that is copied holds the first node alone.
pub copy_first_node : List ExceptionHandlerNode → Option (List ExceptionHandlerNode)
copy_first_node stack = do
  first ← get_elem? stack 0
  some (set stack (max_exception_stack_size - 1) first)

-- Whether the stack counts as full is decided by comparing its top with itself.
pub place_node : ExceptionHandlerNode → ExceptionHandler → Option ExceptionHandler
unfolding copy_first_node
place_node node handler =
    if handler.exception_stack_top == handler.exception_stack_top
    then (do
      stack ← copy_first_node handler.exception_stack
      some (record handler { exception_stack = set stack (max_exception_stack_size - 1) node }))
    else some (record handler {
      exception_stack = set handler.exception_stack handler.exception_stack_top node;
      exception_stack_top = handler.exception_stack_top + 1;
    })

-- `none` is a failed assertion, or the call of a null pointer: the callback is not tested.
pub push_exception : ExceptionCode → ℕ → ThreadState → Option (List Invocation × ThreadState)
unfolding holo_assert place_node
push_exception code platform_code t = elim t.exception_handler [
  | none ↦ some ([], t)
  | some handler ↦ do
    holo_assert (ltb handler.exception_stack_top max_exception_stack_size)
    holo_assert (not (handler.callback == 0))
    placed ←
        place_node (record { exception_code = code; platform_exception_code = platform_code })
          handler
    some (
      record { callback = handler.callback; code = code; platform_code = platform_code } ∷ [],
      record t { exception_handler = some (record placed { platform_exception_code = 0 }) },
    )
]

pub get_last_exception : ThreadState → Option (ExceptionCode × ThreadState)
unfolding holo_assert
get_last_exception t = elim t.exception_handler [
  | none ↦ some (ExceptionCode.none, t)
  | some handler ↦ do
    holo_assert (ltb handler.exception_stack_top max_exception_stack_size)
    if handler.exception_stack_top == 0
        then some (
          ExceptionCode.none,
          record t { exception_handler = some (record handler { platform_exception_code = 0 }) },
        )
        else (do
          node ← get_elem? handler.exception_stack (handler.exception_stack_top - 1)
          some (
            node.exception_code,
            record t {
              exception_handler = some (record handler {
                exception_stack_top = handler.exception_stack_top - 1;
                platform_exception_code = node.platform_exception_code;
              });
            },
          ))
]

abbrev pub get_last_platform_exception : ThreadState → ℕ
get_last_platform_exception t = elim t.exception_handler [
  | none ↦ 0
  | some handler ↦ handler.platform_exception_code
]
