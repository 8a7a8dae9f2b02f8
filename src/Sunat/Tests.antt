-- ===== src/Sunat/Tests.antt =====
-- Errors and their classification.
use facturify.Base.{◌≡◌, refl, true, none, some, arith}
use facturify.Js.Text.{
  Text, codes, text_eq, includes, trim, trim_start, trim_end, trim_end_cons, is_alnum, is_digit,
  is_upper, is_lower, is_space, lower_unit,
}
use facturify.Js.Value.{undefined, string}
use facturify.Js.Value
use facturify.Js.Number.{Num}
use facturify.Js.Pattern.{unit_then, maybe_then, star_then, word_then, found_in}
use facturify.Sunat.Table.{category_retryable, category_default_message, temporary, unknown}
use facturify.Sunat.Table.Authentication.{authentication_errors}
use facturify.Sunat.Table.Duplicates.{duplicate_errors}
use facturify.Sunat.Table.Transport.{temporary_errors}
use facturify.Sunat.Table.Validation.{validation_errors}
use facturify.Sunat.Table.Rejections.{rejected_errors}
use facturify.Sunat.Tokens.{
  network_tests, first_true, network_token, status_here, status_behind, http_here, http_status,
  four_here, four_digits, is_code_unit, cleaned,
}
use facturify.Sunat.Codes.{
  explicit_error_map, find_row, inherited_names, absent, lookup_code, text, error, object,
  input_text, code_of_text, extract_canonical_code,
}
use facturify.Sunat.Classifier.{
  Classified, four_digit_number, classify_unknown, classify_range, classify_code, classify,
  with_default,
}
use facturify.Sunat.Public.{IsAnswer, classify-Answer}
use facturify.Sunat.Network.{classify-network}
use facturify.Sunat.Numbers.{range_category, four_digit_text, classify-number}

opened : Unit {0}
unfolding text_eq includes trim trim_start trim_end trim_end_cons is_alnum is_digit is_upper
    is_lower is_space lower_unit unit_then maybe_then star_then word_then found_in
    authentication_errors duplicate_errors temporary_errors validation_errors rejected_errors
    network_tests first_true network_token status_here status_behind http_here http_status four_here
    four_digits is_code_unit cleaned explicit_error_map find_row inherited_names lookup_code
    input_text code_of_text extract_canonical_code four_digit_number classify_unknown classify_range
    classify_code classify Value.to_text Value.to_text_or_empty category_retryable
    category_default_message
opened = tt

abbrev show : Num → Text
show x = codes "2999"

socket_error :
    extract_canonical_code show (error (codes "Error") (codes "connect ESOCKETTIMEDOUT"))
    ≡ some (codes "ESOCKETTIMEDOUT")
unfolding opened
socket_error = refl

http_error :
    extract_canonical_code show (text (codes "Request failed, http 503.")) ≡ some (codes "HTTP_503")
unfolding opened
http_error = refl

-- A number of eleven digits is no code.
ruc : extract_canonical_code show (text (codes "RUC 20123456789: error 0102")) ≡ some (codes "0102")
unfolding opened
ruc = refl

fault :
    extract_canonical_code show
      (object (string (codes "soap:Client.1033")) undefined undefined undefined)
    ≡ some (codes "1033")
unfolding opened
fault = refl

secret :
    classify show (text (codes "user@example.com has the password hunter2"))
    ≡ some (with_default unknown (codes "UNKNOWN"))
unfolding opened
secret = refl

-- A short secret is the public code.
short_secret :
    classify show (text (codes "clave: hunter2"))
    ≡ some (with_default unknown (codes "clavehunter2"))
unfolding opened
short_secret = refl

inherited_name : classify show (text (codes "constructor")) ≡ none
unfolding opened
inherited_name = refl

reset :
    network_token (trim (input_text show (text (codes " Connection  reset by peer"))))
    ≡ some (codes "ECONNRESET")
unfolding opened
reset = refl

no_row : lookup_code (four_digit_text 2801) ≡ absent
unfolding opened
no_row = refl

four : trim (input_text show (text (codes " 2801"))) ≡ four_digit_text 2801
unfolding opened
four = refl

classify-Answer_example :
    IsAnswer
      (extract_canonical_code show (text (codes "0102")))
      (classify show (text (codes "0102")))
classify-Answer_example = classify-Answer show (text (codes "0102"))

classify-network_example :
    (r : Classified) × (classify show (text (codes " Connection  reset by peer")) ≡ some r)
    × (r.category ≡ temporary)
    × (r.retryable ≡ true)
classify-network_example =
    classify-network show (text (codes " Connection  reset by peer")) (codes "ECONNRESET") reset

classify-number_example :
    classify show (text (codes " 2801"))
    ≡ some (with_default (range_category 2801) (four_digit_text 2801))
classify-number_example = classify-number show (text (codes " 2801")) 2801 (omega arith) four no_row
