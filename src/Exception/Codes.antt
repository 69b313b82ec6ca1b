-- ===== src/Exception/Codes.antt =====
-- The exception codes of hologine/core/exception.hpp, core/memory/allocator.hpp and
-- core/text/unicode.hpp: which constant a function returns or pushes, whatever its number. The numbers
-- are given out at startup (see `Generator`) and need not differ, so what compares numbers takes
-- them as a parameter.
use hologine.Base.{ℕ, ◌≡◌, refl, ◌≢◌, ◌⊎◌, inl, inr, Bool, true, false, ◌==◌, arith}

pub data ExceptionCode : Type 0 where
  none index_out_of_range invalid_operation invalid_argument platform : ExceptionCode
  out_of_memory : ExceptionCode
  invalid_unicode_lead incomplete_unicode_sequence overlong_unicode_sequence : ExceptionCode
  invalid_unicode_code_point : ExceptionCode

-- The numbers of the constants.
pub record Numbering : Type 0 where
  pub number : ExceptionCode → ℕ

-- The numbers in the program, where exception.cpp is the first file that is initialised: the first
-- code that is given out is 0, as `none` is, and every other one is 1.
abbrev pub startup_number : ExceptionCode → ℕ
startup_number ExceptionCode.none = 0
startup_number ExceptionCode.index_out_of_range = 0
startup_number _ = 1

abbrev pub startup : Numbering
startup = record { number = startup_number }

-- `exception == holo::exception::none`, which compares numbers.
abbrev pub is_none : ⦃codes : Numbering⦄ → ExceptionCode → Bool
is_none ⦃codes⦄ e = codes.number e == codes.number ExceptionCode.none

pub is_none-none : ⦃codes : Numbering⦄ → is_none ExceptionCode.none ≡ true
is_none-none = ground arith

-- Whether a chain of checks runs to its end, and none of them returns the constant of an exception.
abbrev pub passes : ExceptionCode → Bool
passes ExceptionCode.none = true
passes _ = false

pub passes-cases :
    (e : ExceptionCode) → (e ≡ ExceptionCode.none) ⊎ ((e ≢ ExceptionCode.none) × (passes e ≡ false))
passes-cases ExceptionCode.none = inl refl
passes-cases ExceptionCode.index_out_of_range = inr (λ h. cc, refl)
passes-cases ExceptionCode.invalid_operation = inr (λ h. cc, refl)
passes-cases ExceptionCode.invalid_argument = inr (λ h. cc, refl)
passes-cases ExceptionCode.platform = inr (λ h. cc, refl)
passes-cases ExceptionCode.out_of_memory = inr (λ h. cc, refl)
passes-cases ExceptionCode.invalid_unicode_lead = inr (λ h. cc, refl)
passes-cases ExceptionCode.incomplete_unicode_sequence = inr (λ h. cc, refl)
passes-cases ExceptionCode.overlong_unicode_sequence = inr (λ h. cc, refl)
passes-cases ExceptionCode.invalid_unicode_code_point = inr (λ h. cc, refl)
