-- ===== src/Exception/Generator.antt =====
-- hologine/core/exception.cpp: `exception_code_generator`, which hands out the exception codes
-- while the program's constants are initialised.
pub mod Codes
mod Tests
use hologine.Base.{
  ℕ, ◌+◌, Bool, true, false, not, Option, none, some, List, [], ◌∷◌, ltb, leb, ◌==◌, if◌then◌else◌,
  ◌>>=◌, replicate, get_elem?, set, ◌||◌,
}
use Prim.Native.String.{String}

-- An `int`; `negsuc n` is -(n + 1).
pub data ℤ : Type 0 where
  pos : ℕ → ℤ
  negsuc : ℕ → ℤ

abbrev pub max_exception_codes : ℕ
max_exception_codes = 256

-- The static members; an entry of the table that holds a null pointer is `none`.
pub record Generator : Type 0 where
  pub current_exception_code : ℕ
  pub exception_code_enumerations : List (Option String)

abbrev pub static_state : Generator
static_state = record {
  current_exception_code = 0;
  exception_code_enumerations = replicate max_exception_codes none;
}

pub initialize : Generator → Generator
initialize g = record {
  current_exception_code = 1;
  exception_code_enumerations = set g.exception_code_enumerations 0 (some "holo_exception_none");
}

pub is_initialized : Generator → Bool
is_initialized g = ltb g.current_exception_code 1

-- `if (!is_initialized()) initialize();`
pub ensure_initialized : Generator → Generator
unfolding is_initialized initialize
ensure_initialized g = if not (is_initialized g) then initialize g else g

-- `none` is `terminate()`.
pub generate_exception_code : String → Generator → Option (ℕ × Generator)
unfolding ensure_initialized
generate_exception_code enumeration g =
    let s = ensure_initialized g in
    if leb max_exception_codes s.current_exception_code
    then none
    else some (
      s.current_exception_code,
      record {
        current_exception_code = s.current_exception_code + 1;
        exception_code_enumerations =
            set s.exception_code_enumerations s.current_exception_code (some enumeration);
      },
    )

-- The text, or `none` for a null pointer, and whether the exception `index_out_of_range` is pushed.
pub get_exception_enumeration : ℤ → Generator → Option String × Bool × Generator
unfolding ensure_initialized
get_exception_enumeration (negsuc n) g = (none, true, ensure_initialized g)
get_exception_enumeration (pos code) g =
    let s = ensure_initialized g in
    if leb s.current_exception_code code then (none, true, s) else (
      elim (get_elem? s.exception_code_enumerations code) [ none ↦ none | some e ↦ e ],
      false,
      s,
    )

-- The initialisers of the constants, in the order in which they run.
pub generate_all : List String → Generator → Option (List ℕ × Generator)
generate_all [] g = some ([], g)
generate_all (enumeration ∷ rest) g = do
  (code, g₁) ← generate_exception_code enumeration g
  (codes, g₂) ← generate_all rest g₁
  some (code ∷ codes, g₂)
