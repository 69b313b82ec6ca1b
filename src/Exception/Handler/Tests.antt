-- ===== src/Exception/Handler/Tests.antt =====
-- The theorem on the exception handler at a concrete run of a thread.
use hologine.Base.{◌≡◌, refl, true, none, some, List, [], ◌∷◌, replicate}
use hologine.Exception.Codes.{ExceptionCode}
use hologine.Exception.Handler.{ExceptionHandler}
use hologine.Exception.Handler.Stack.{Call, run, observed, spec_run, run_refines}

abbrev made : ExceptionHandler
made = record {
  exception_stack =
      replicate 32 (record { exception_code = ExceptionCode.none; platform_exception_code = 0 });
  exception_stack_top = 17;
  platform_exception_code = 5;
  callback = 3;
  allocator = 4;
}

abbrev calls : List Call
calls =
    Call.enable (some made) 4 9
    ∷ Call.push ExceptionCode.platform 6
    ∷ Call.last
    ∷ Call.disable
    ∷ Call.last
    ∷ []

run_refines_example :
    observed (run calls (record { is_valid = true; exception_handler = none }))
    ≡ spec_run true calls none
run_refines_example = run_refines true calls (refl, tt)
