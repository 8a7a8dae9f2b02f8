-- ===== src/Peru/Tests.antt =====
-- The validation at concrete inputs.
use mathlib.Core.List.{Memᴰ}
use facturify.Base.{
  ℕ, ◌+◌, ◌<◌, ◌≡◌, ◌↔◌, refl, true, none, some, [], ◌∷◌, ◌++◌, take, all, arith, inl,
}
use facturify.Base.Result.{err}
use facturify.Js.Text.{
  Text, codes, trim, trim_start, trim_end, trim_end_cons, is_space, is_digit, is_upper, is_lower,
  is_alnum, text_eq, includes, to_upper, upper_unit,
}
use facturify.Js.Number.{Num}
use facturify.Js.Value.{undefined, string, is_nullish, to_text, to_text_or_empty}
use facturify.Peru.{
  valid, invalid, ruc_check_digit, dni_sequence, customer_document_number, note_of_invoice,
  credit_note, series, is_valid, raw_text, is_digits,
}
use facturify.Peru.Sanitizer.{
  strip_tags, sanitize, stars, mask_text, mask_identity_document, sanitize_safe_text,
}
use facturify.Peru.Sanitizer.Hiding.{mask_identity_document-hides}
use facturify.Peru.Ruc.{
  valid_ruc_prefixes, weighted_sum, digit_at, expected_check_digit, judge_ruc, validate_ruc,
}
use facturify.Peru.Ruc.Laws.{IsRuc, validate_ruc_iff, judge_ruc-completion}
use facturify.Peru.Ruc.Detection.{judge_ruc-one_digit}
use facturify.Peru.Identity.{
  IdentityDocumentType, identity_code, find_identity_type, validate_dni, judge_identity,
  validate_identity_document,
}
use facturify.Peru.Identity.Laws.{IsNumber, validate_identity_document-IsNumber}
use facturify.Peru.Series.{
  Kind, kind, inherited, document_type_normalization, is_truthy, reference_entry, judge_note,
  judge_series, is_series, validate_series, assert_valid_series, type_error, validate_currency,
}
use facturify.Peru.Series.Laws.{Fits, answer, validate_series_iff, validate_series-undefined}

abbrev show : Num → Text
show x = codes "0"

abbrev wide : Text → Text
wide s = s

opened : Unit {0}
unfolding is_valid raw_text is_digits strip_tags sanitize stars mask_text mask_identity_document
    sanitize_safe_text weighted_sum digit_at expected_check_digit judge_ruc validate_ruc trim
    trim_start trim_end trim_end_cons is_space is_digit is_upper is_lower is_alnum text_eq includes
    is_nullish to_text to_text_or_empty identity_code find_identity_type validate_dni judge_identity
    validate_identity_document document_type_normalization is_truthy reference_entry judge_note
    judge_series validate_series assert_valid_series validate_currency to_upper upper_unit
opened = tt

ruc_run : validate_ruc show (string (codes " 20100070970 ")) ≡ valid
unfolding opened
ruc_run = refl

wrong_digit :
    validate_ruc show (string (codes "20100070971"))
    ≡ invalid (ruc_check_digit (codes "20*****0971")) customer_document_number
unfolding opened
wrong_digit = refl

sequence :
    validate_dni show (string (codes "11111111"))
    ≡ invalid (dni_sequence (codes "11****11")) customer_document_number
unfolding opened
sequence = refl

tags : mask_identity_document show (string (codes "ab<i>cdef</i>g<h")) ≡ codes "ab*****<h"
unfolding opened
tags = refl

passport : validate_identity_document show (string (codes "7")) (string (codes " AB-123 ")) ≡ valid
unfolding opened
passport = refl

note_run :
    validate_series show wide (string (codes "07")) (string (codes "b001")) (string (codes "01"))
    ≡ some (invalid (note_of_invoice credit_note (codes "B001")) series)
unfolding opened
note_run = refl

constructor_run :
    assert_valid_series show wide (string (codes "constructor")) (string (codes "F001")) undefined
    ≡ err type_error
unfolding opened
constructor_run = refl

currency_run : validate_currency show wide (string (codes " usd")) ≡ valid
unfolding opened
currency_run = refl

validate_ruc_iff_example :
    (is_valid (validate_ruc show (string (codes " 20100070970 "))) ≡ true)
    ↔ IsRuc (raw_text show (string (codes " 20100070970 ")))
validate_ruc_iff_example = validate_ruc_iff show (string (codes " 20100070970 "))

digits_run : all is_digit (codes "2010007097") ≡ true
unfolding opened
digits_run = refl

starts_20 : Memᴰ (take 2 (codes "2010007097")) valid_ruc_prefixes
starts_20 = Memᴰ.tail (Memᴰ.tail (Memᴰ.tail (Memᴰ.head refl)))

judge_ruc-completion_example :
    (c : ℕ) × (c < 10)
    × ((d : ℕ)
        → d < 10
        → (is_valid (judge_ruc show (codes "2010007097" ++ ((b'0' + d) ∷ []))) ≡ true) ↔ (d ≡ c))
judge_ruc-completion_example =
    judge_ruc-completion show (codes "2010007097") refl digits_run starts_20

first_ruc : is_valid (judge_ruc show (codes "20" ++ (b'1' ∷ codes "00000131"))) ≡ true
unfolding opened
first_ruc = refl

second_ruc : is_valid (judge_ruc show (codes "20" ++ (b'8' ∷ codes "00000131"))) ≡ true
unfolding opened
second_ruc = refl

judge_ruc-one_digit_example : digit_at 10 (codes "20" ++ (b'1' ∷ codes "00000131")) ≡ 1
judge_ruc-one_digit_example =
    judge_ruc-one_digit show (codes "20") (codes "00000131") b'1' b'8' (omega arith) first_ruc
      second_ruc

validate_identity_document-IsNumber_example :
    (t : IdentityDocumentType) × (identity_code t
      ≡ trim (to_text_or_empty show (string (codes "7"))))
    × IsNumber t (trim (to_text_or_empty show (string (codes " AB-123 "))))
unfolding opened
validate_identity_document-IsNumber_example =
    validate_identity_document-IsNumber show (string (codes "7")) (string (codes " AB-123 ")) refl

validate_series_iff_example :
    (answer (validate_series show wide (string (codes "01")) (string (codes " f001")) undefined)
      ≡ true)
    ↔ ((k : Kind) × (document_type_normalization
            (trim (to_text_or_empty show (string (codes "01"))))
          ≡ kind k)
        × Fits k
            (reference_entry show undefined)
            (to_upper wide (trim (to_text_or_empty show (string (codes " f001"))))))
validate_series_iff_example =
    validate_series_iff show wide (string (codes "01")) (string (codes " f001")) undefined

validate_series-undefined_example :
    (validate_series show wide (string (codes "toString")) (string (codes "F001")) undefined ≡ none)
    ↔ ((document_type_normalization (trim (to_text_or_empty show (string (codes "toString"))))
          ≡ inherited)
        × (is_series (to_upper wide (trim (to_text_or_empty show (string (codes "F001"))))) ≡ true))
validate_series-undefined_example =
    validate_series-undefined show wide (string (codes "toString")) (string (codes "F001"))
      undefined

mask_identity_document-hides_example :
    mask_identity_document show (string (codes "20100070970"))
    ≡ mask_identity_document show (string (codes "20999990970"))
unfolding opened
mask_identity_document-hides_example =
    mask_identity_document-hides show 11 7 (codes "20100070970") (codes "20999990970")
      (inl (refl, refl)) refl refl refl refl refl refl
