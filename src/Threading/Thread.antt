-- ===== src/Threading/Thread.antt =====
-- hologine/core/threading/thread.cpp, on windows/core/threading/thread_base.cpp: the states of a
-- thread object.
pub mod Flags
mod Tests
use hologine.Base.{
  ℕ, ◌-◌, ◌^◌, Bool, true, false, not, ◌&&◌, ◌||◌, Option, none, some, List, [], ◌∷◌, ◌++◌, ◌==◌,
  if◌then◌else◌, bit_and, bit_or,
}
use hologine.Exception.Codes.{ExceptionCode}

abbrev pub flag_enable_exceptions : ℕ
flag_enable_exceptions = 0x01

abbrev pub flag_thread_created : ℕ
flag_thread_created = 0x02

abbrev pub flag_thread_invalid : ℕ
flag_thread_invalid = 0x04

abbrev pub flag_thread_started : ℕ
flag_thread_started = 0x08

abbrev pub flag_thread_exited : ℕ
flag_thread_exited = 0x10

abbrev pub thread_return_status_ok : ℕ
thread_return_status_ok = 0

-- The argument and the handle of the base class; pointers are numbers, 0 for null.
pub record Thread : Type 0 where
  pub return_status : ℕ
  pub callback : ℕ
  pub userdata : ℕ
  pub flags : ℕ
  pub allocator : ℕ
  pub thread_handle : ℕ

-- What an operation does besides: exceptions that are pushed, and calls of the system.
pub data Effect : Type 0 where
  push_exception : ExceptionCode → Effect
  begin_thread : Effect
  resume_thread : Effect
  wait_thread : Effect
  close_handle : Effect

abbrev pub get_argument_flag : ℕ → Thread → Bool
get_argument_flag flag t = bit_and t.flags flag == flag

pub set_argument_flag : ℕ → Bool → Thread → Thread
set_argument_flag flag enable t =
    if enable
    then record t { flags = bit_or t.flags flag }
    else record t { flags = bit_and t.flags (2 ^ 32 - 1 - flag) }

abbrev pub invalidate : Thread → Thread
unfolding set_argument_flag
invalidate = set_argument_flag flag_thread_invalid true

abbrev pub is_valid : Thread → Bool
is_valid t = not (get_argument_flag flag_thread_invalid t)

-- `stale` is the handle, which no constructor assigns.
abbrev pub init_argument : ℕ → ℕ → ℕ → Thread
init_argument stale callback userdata = record {
  return_status = thread_return_status_ok;
  callback = callback;
  userdata = userdata;
  flags = 0;
  allocator = 0;
  thread_handle = stale;
}

-- `handle` is what the system answers.
abbrev pub create_thread : ℕ → Thread → List Effect × Thread
create_thread handle t =
    if handle == 0
    then (begin_thread ∷ push_exception ExceptionCode.platform ∷ [], record t { thread_handle = 0 })
    else (begin_thread ∷ [], record t { thread_handle = handle })

abbrev pub run_thread : Bool → Thread → List Effect × Thread
run_thread ok t =
    if ok
    then (resume_thread ∷ [], t)
    else (resume_thread ∷ push_exception ExceptionCode.platform ∷ [], t)

-- `status` is what the procedure of the thread has written behind the wait.
abbrev pub join_thread : Bool → ℕ → Thread → Bool × List Effect × Thread
join_thread ok status t =
    if ok
    then (
      true,
      wait_thread ∷ close_handle ∷ [],
      record t { thread_handle = 0; return_status = status },
    )
    else (false, wait_thread ∷ push_exception ExceptionCode.platform ∷ [], t)

abbrev pub thread_default : ℕ → Thread
thread_default stale = init_argument stale 0 0

pub thread : ℕ → ℕ → ℕ → ℕ → List Effect × Thread
thread stale handle callback userdata =
    if callback == 0
    then (push_exception ExceptionCode.invalid_argument ∷ [], init_argument stale 0 0)
    else create_thread handle (init_argument stale callback userdata)

pub start : Bool → Thread → List Effect × Thread
start ok t =
    if not (is_valid t)
      || (get_argument_flag flag_thread_started t || not (get_argument_flag flag_thread_created t))
    then (push_exception ExceptionCode.invalid_operation ∷ [], t)
    else run_thread ok t

pub start_callback : ℕ → ℕ → ℕ → Thread → List Effect × Thread
start_callback handle callback userdata t =
    if not (is_valid t) || get_argument_flag flag_thread_created t
    then (push_exception ExceptionCode.invalid_operation ∷ [], t)
    else if callback == 0
    then (push_exception ExceptionCode.invalid_argument ∷ [], t)
    else create_thread handle (record t { callback = callback; userdata = userdata })

pub join : Bool → ℕ → Thread → ℕ × List Effect × Thread
join ok status t =
    let (joined, effects, t') = join_thread ok status t in
    if not (is_valid t) || not (get_argument_flag flag_thread_started t)
    then (thread_return_status_ok, push_exception ExceptionCode.invalid_operation ∷ [], t)
    else if joined
    then (t'.return_status, effects, t')
    else (thread_return_status_ok, effects, t')

pub destroy : Bool → ℕ → Thread → List Effect × Thread
unfolding join
destroy ok status t =
    if not (get_argument_flag flag_thread_exited t)
    then (let (returned, effects, t') = join ok status t in (effects, t'))
    else ([], t)

pub set_exceptions_flag : Bool → Thread → List Effect × Thread
unfolding set_argument_flag
set_exceptions_flag enable t =
    if not (is_valid t) && not (get_argument_flag flag_thread_started t)
    then (push_exception ExceptionCode.invalid_operation ∷ [], t)
    else ([], set_argument_flag flag_enable_exceptions enable t)

pub set_allocator : ℕ → Thread → List Effect × Thread
set_allocator allocator t =
    if not (is_valid t) && not (get_argument_flag flag_thread_started t)
    then (push_exception ExceptionCode.invalid_operation ∷ [], t)
    else ([], record t { allocator = allocator })
