-- ===== src/Exception/Generator/Tests.antt =====
-- The theorems on the exception code generator at concrete names.
use hologine.Base.{◌≤◌, ◌≡◌, some, [], ◌∷◌}
use hologine.Exception.Generator.{Generator, static_state, generate_all}
use hologine.Exception.Generator.Codes.{generate_all-codes}

generate_all-codes_example :
    (g : Generator) × (generate_all
        ("holo_exception_index_out_of_range" ∷ "holo_exception_invalid_operation"
          ∷ "holo_exception_platform" ∷ [])
        static_state
      ≡ some (0 ∷ 1 ∷ 1 ∷ [], g))
    × (1 ≤ g.current_exception_code)
generate_all-codes_example = generate_all-codes _ _
