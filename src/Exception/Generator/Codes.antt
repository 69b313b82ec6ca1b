-- ===== src/Exception/Generator/Codes.antt =====
-- exception.cpp: the codes that are handed out, and the texts that can be looked up.
use hologine.Base.{
  zero, suc, ◌≤◌, ◌<◌, ◌≡◌, refl, ◌≢◌, ◌⊎◌, true, false, none, some, List, [], ◌∷◌, arith, length,
  replicate, set, get_elem?-set_self,
}
use hologine.Exception.Generator.{
  ℤ, pos, negsuc, Generator, static_state, generate_exception_code, get_exception_enumeration,
  generate_all,
}
use Prim.Native.String.{String}

-- A generator that has handed out a code starts again at 1.
restart :
    (name : String) (g : Generator)
    → 1 ≤ g.current_exception_code
    → generate_exception_code name g
      ≡ some (
        1,
        record {
          current_exception_code = 2;
          exception_code_enumerations =
              set (set g.exception_code_enumerations 0 (some "holo_exception_none")) 1 (some name);
        },
      )
unfolding generate_exception_code
restart name g h = ground arith

later_codes :
    (names : List String) (g : Generator)
    → 1 ≤ g.current_exception_code
    → (g' : Generator) × (generate_all names g ≡ some (replicate (length names) 1, g'))
      × (1 ≤ g'.current_exception_code)
unfolding generate_all
later_codes [] g h = (g, refl, h)
later_codes (name ∷ names) g h =
    let (g', e, h') =
      later_codes names
        (record {
          current_exception_code = 2;
          exception_code_enumerations =
              set (set g.exception_code_enumerations 0 (some "holo_exception_none")) 1 (some name);
        })
        (omega arith) in
    (g', ground (arith, restart name g h, e), h')

-- However many constants are initialised, and in whatever order, the first gets the code 0, which
-- is that of `none`, and every other one gets the code 1.
pub generate_all-codes :
    (name : String) (names : List String)
    → (g : Generator) × (generate_all (name ∷ names) static_state
        ≡ some (0 ∷ replicate (length names) 1, g))
      × (1 ≤ g.current_exception_code)
unfolding generate_all generate_exception_code
generate_all-codes name names =
    let (g', e, h') =
      later_codes names
        (record {
          current_exception_code = 1;
          exception_code_enumerations = some name ∷ replicate 255 none;
        })
        (omega arith) in
    (g', ground (arith, e), h')

-- From then on only the code 0 can be looked up, and its text is that of `none`; for any other
-- code, negative or not, the result is a null pointer and an exception.
pub get_exception_enumeration-after :
    (g : Generator) (code : ℤ)
    → 1 ≤ g.current_exception_code
    → 0 < length g.exception_code_enumerations
    → ((code ≡ pos 0)
        × ((get_exception_enumeration code g).0 ≡ some "holo_exception_none")
        × ((get_exception_enumeration code g).1 ≡ false))
      ⊎ ((code ≢ pos 0)
          × ((get_exception_enumeration code g).0 ≡ none)
          × ((get_exception_enumeration code g).1 ≡ true))
unfolding get_exception_enumeration
get_exception_enumeration-after g (negsuc n) h l = ground arith
get_exception_enumeration-after g (pos zero) h l =
    ground (arith, get_elem?-set_self g.exception_code_enumerations 0 (some "holo_exception_none"))
get_exception_enumeration-after g (pos (suc n)) h l = ground arith
