-- ===== src/Peru/Ruc.antt =====
-- `validateRuc` (src/peru-validation/peru-validation.service.ts).
pub mod CheckDigit
pub mod Laws
pub mod Detection
use facturify.Base.{
  ℕ, zero, suc, ◌+◌, ◌-◌, ◌*◌, ◌%◌, Bool, true, false, not, List, [], ◌∷◌, take, ◌==◌,
  if◌then◌else◌,
}
use facturify.Base.Result.{Result}
use facturify.Js.Text.{Text, codes, includes}
use facturify.Js.Number.{Num}
use facturify.Js.Value.{Value, string}
use facturify.Peru.{
  PeruError, ruc_format, ruc_prefix, ruc_check_digit, customer_document_number, ValidationResult,
  valid, invalid, raw_text, is_digits, assert_result,
}
use facturify.Peru.Sanitizer.{mask_identity_document}

abbrev pub valid_ruc_prefixes : List Text
valid_ruc_prefixes = codes "10" ∷ codes "15" ∷ codes "17" ∷ codes "20" ∷ codes "21" ∷ []

abbrev pub ruc_factors : List ℕ
ruc_factors = 5 ∷ 4 ∷ 3 ∷ 2 ∷ 7 ∷ 6 ∷ 5 ∷ 4 ∷ 3 ∷ 2 ∷ []

-- `parseInt(raw[i], 10)`, where `raw[i]` is a digit.
abbrev pub digit_value : ℕ → ℕ
digit_value c = c - b'0'

-- The sum that the loop builds, with as many steps as there are factors.
unfoldable pub weighted_sum : List ℕ → Text → ℕ
weighted_sum [] s = 0
weighted_sum (f ∷ fs) [] = 0
weighted_sum (f ∷ fs) (c ∷ s) = digit_value c * f + weighted_sum fs s

-- `parseInt(raw[n], 10)`, for an index in range.
unfoldable pub digit_at : ℕ → Text → ℕ
digit_at n [] = 0
digit_at zero (c ∷ s) = digit_value c
digit_at (suc n) (c ∷ s) = digit_at n s

unfoldable pub expected_check_digit : ℕ → ℕ
expected_check_digit sum =
    let digit = 11 - sum % 11 in if digit == 10 then 0 else if digit == 11 then 1 else digit

-- The tests on the trimmed text.
unfoldable pub judge_ruc : (Num → Text) → Text → ValidationResult
unfolding is_digits includes weighted_sum digit_at expected_check_digit mask_identity_document
judge_ruc show raw =
    let masked = mask_identity_document show (string raw) in
    if not (is_digits 11 raw)
    then invalid (ruc_format masked) customer_document_number
    else if not (includes valid_ruc_prefixes (take 2 raw))
    then invalid (ruc_prefix masked) customer_document_number
    else if not (digit_at 10 raw == expected_check_digit (weighted_sum ruc_factors raw))
    then invalid (ruc_check_digit masked) customer_document_number
    else valid

unfoldable pub validate_ruc : (Num → Text) → Value → ValidationResult
unfolding raw_text judge_ruc
validate_ruc show ruc = judge_ruc show (raw_text show ruc)

unfoldable pub assert_valid_ruc : (Num → Text) → Value → Result PeruError (Unit {0})
unfolding assert_result validate_ruc
assert_valid_ruc show ruc = assert_result (validate_ruc show ruc)
