-- ===== src/Sunat/Classifier.antt =====
-- `classify` (src/sunat-errors/sunat-error-classifier.service.ts), which `classifyCdrCode`,
-- `classifySoapFault` and `classifyTransportError` call.
use facturify.Base.{
  ℕ, ◌+◌, ◌-◌, ◌*◌, Bool, false, ◌&&◌, Option, none, some, [], ◌∷◌, all, length, leb, ltb,
  if◌then◌else◌,
}
use facturify.Js.Text.{Text, codes, is_digit}
use facturify.Js.Number.{Num}
use facturify.Sunat.Table.{
  SunatErrorCategory, validation, rejected, unknown, category_retryable, category_default_message,
}
use facturify.Sunat.Tokens.{is_code_unit}
use facturify.Sunat.Codes.{
  found, inherited, absent, lookup_code, ErrorInput, extract_canonical_code,
}

-- The code that is returned has these fields, or four fields that are undefined.
pub record Classified : Type 0 where
  pub category : SunatErrorCategory
  pub retryable : Bool
  pub public_code : Text
  pub public_message : Text

abbrev pub ClassifiedSunatError : Type 0
ClassifiedSunatError = Option Classified

-- `/^\d{4}$/` and `parseInt`
unfoldable pub four_digit_number : Text → Option ℕ
unfolding is_digit
four_digit_number (a ∷ b ∷ c ∷ d ∷ []) =
    if is_digit a && is_digit b && is_digit c && is_digit d
    then some ((a - b'0') * 1000 + (b - b'0') * 100 + (c - b'0') * 10 + (d - b'0'))
    else none
four_digit_number _ = none

abbrev pub with_default : SunatErrorCategory → Text → Classified
with_default category code = record {
  category = category;
  retryable = false;
  public_code = code;
  public_message = category_default_message category;
}

unfoldable pub classify_unknown : Text → Classified
unfolding is_code_unit category_default_message
classify_unknown code =
    if leb 1 (length code) && leb (length code) 20 && all is_code_unit code
    then with_default unknown code
    else with_default unknown (codes "UNKNOWN")

-- The ranges of SUNAT's numbers.
unfoldable pub classify_range : Text → Option ℕ → Classified
unfolding classify_unknown category_default_message
classify_range code none = classify_unknown code
classify_range code (some n) =
    if leb 2000 n && ltb n 3000
    then with_default validation code
    else if leb 3000 n && leb n 4999
    then with_default rejected code
    else classify_unknown code

unfoldable pub classify_code : Text → ClassifiedSunatError
unfolding lookup_code four_digit_number classify_range category_retryable
classify_code code = elim (lookup_code code) [
  | found definition ↦ some (record {
    category = definition.category;
    retryable = category_retryable definition.category;
    public_code = definition.public_code;
    public_message = definition.public_message;
  })
  | inherited ↦ none
  | absent ↦ some (classify_range code (four_digit_number code))
]

unfoldable pub classify : (Num → Text) → ErrorInput → ClassifiedSunatError
unfolding extract_canonical_code classify_code category_default_message
classify show input = elim (extract_canonical_code show input) [
  | none ↦ some (with_default unknown (codes "UNKNOWN"))
  | some code ↦ classify_code code
]
