-- ===== src/Password/Tests.antt =====
-- Passwords and what becomes of them.
use facturify.Base.{◌≡◌, refl, Option, some, none, [], ◌∷◌}
use facturify.Base.Result.{ok, err}
use facturify.Js.Text.{
  Text, codes, trim, trim_start, trim_end, trim_end_cons, is_space, is_digit, is_upper, is_lower,
  is_alnum, lower_unit, to_lower,
}
use facturify.Js.Search.{has_prefix, contains}
use facturify.Js.Value.{string, null}
use facturify.Password.Text.{
  Letters, normalize_text, leet_unit, normalize_with_leet, is_control_unit,
  contains_control_characters, repetition_loop, repeats, has_excessive_repetitions,
}
use facturify.Password.Service.{
  common_weak_pattern, excessive_repetition, personal_data, too_short, missing_uppercase,
  missing_number, missing_special, not_a_string, PasswordValidationContext, has_outer_whitespace,
  split_name, local_part, contains_personal_data, password_errors, validate, assert_valid,
}
use facturify.Password.Laws.{IsStrong, assert_valid-IsStrong}

opened : Unit {0}
unfolding trim trim_start trim_end trim_end_cons is_space is_digit is_upper is_lower is_alnum
    lower_unit to_lower has_prefix contains normalize_text leet_unit normalize_with_leet
    is_control_unit contains_control_characters repetition_loop repeats has_excessive_repetitions
    has_outer_whitespace split_name local_part contains_personal_data password_errors validate
    assert_valid
opened = tt

abbrev letters : Letters
letters = record { lower = λ s. s; nfd = λ s. s }

abbrev person : Text → Option PasswordValidationContext
person name = some (record { email = codes "jperez@example.pe"; name = name })

short :
    assert_valid letters (string (codes "rootaaaa")) none
    ≡ err (
        too_short ∷ missing_uppercase ∷ missing_number ∷ missing_special ∷ excessive_repetition
        ∷ common_weak_pattern ∷ [])
unfolding opened
short = refl

no_text : assert_valid letters null none ≡ err (not_a_string ∷ [])
unfolding opened
no_text = refl

-- The word password, with digits and signs for letters.
leet : assert_valid letters (string (codes "P@$sw0rdXk9!")) none ≡ err (common_weak_pattern ∷ [])
unfolding opened
leet = refl

strong : assert_valid letters (string (codes "Xk7!mariaQw9z")) (person (codes "Ana-Maria")) ≡ ok tt
unfolding opened
strong = refl

-- The same password, where a space stands between the names.
named_password :
    assert_valid letters (string (codes "Xk7!mariaQw9z")) (person (codes "Ana Maria"))
    ≡ err (personal_data ∷ [])
unfolding opened
named_password = refl

green :
    assert_valid letters (string (codes "Xk7!greenQw9z")) (person (codes "Ana Maria, Rojas"))
    ≡ ok tt
unfolding opened
green = refl

assert_valid-IsStrong_example :
    IsStrong letters (codes "Xk7!greenQw9z") (person (codes "Ana Maria, Rojas"))
assert_valid-IsStrong_example =
    assert_valid-IsStrong letters (codes "Xk7!greenQw9z") (person (codes "Ana Maria, Rojas")) green
