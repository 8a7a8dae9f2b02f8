-- ===== src/Peru/Series.antt =====
-- `validateSeries` and `validateCurrency` (src/peru-validation/peru-validation.service.ts).
pub mod Laws
use facturify.Base.{
  ℕ, ◌+◌, ◌-◌, Bool, true, false, not, ◌&&◌, ◌||◌, List, [], ◌∷◌, all, length, leb, ◌==◌,
  if◌then◌else◌, Option, none, some,
}
use facturify.Base.Result.{Result, ok, err}
use facturify.Js.Text.{Text, codes, text_eq, includes, trim, to_upper, is_upper, is_digit}
use facturify.Js.Number.{Num, nan, infinity, neg_infinity, frac, neg_frac}
use facturify.Js.Value.{
  Value, undefined, null, boolean, number, string, other, to_text, to_text_or_empty,
}
use facturify.Peru.{
  Note, credit_note, debit_note, PeruError, unknown_document_type, series_format, invoice_series,
  receipt_series, unknown_currency, note_of_invoice, note_of_receipt, note_series, series, currency,
  ValidationResult, valid, invalid, assert_result,
}
use facturify.Peru.Sanitizer.{sanitize_safe_text}

pub data Kind : Type 0 where
  invoice receipt : Kind
  note : Note → Kind

-- What `DOCUMENT_TYPE_NORMALIZATION[key]` yields: a type, a member that every object inherits, or
-- `undefined`.
pub data Entry : Type 0 where
  kind : Kind → Entry
  inherited absent : Entry

abbrev pub inherited_members : List Text
inherited_members =
    codes "constructor"
    ∷ codes "__proto__"
    ∷ codes "toString"
    ∷ codes "toLocaleString"
    ∷ codes "valueOf"
    ∷ codes "hasOwnProperty"
    ∷ codes "isPrototypeOf"
    ∷ codes "propertyIsEnumerable"
    ∷ codes "__defineGetter__"
    ∷ codes "__defineSetter__"
    ∷ codes "__lookupGetter__"
    ∷ codes "__lookupSetter__"
    ∷ []

unfoldable pub document_type_normalization : Text → Entry
unfolding includes text_eq
document_type_normalization key =
    if includes (codes "INVOICE" ∷ codes "01" ∷ []) key
    then kind invoice
    else if includes (codes "RECEIPT" ∷ codes "03" ∷ []) key
    then kind receipt
    else if includes (codes "CREDIT_NOTE" ∷ codes "07" ∷ []) key
    then kind (note credit_note)
    else if includes (codes "DEBIT_NOTE" ∷ codes "08" ∷ []) key
    then kind (note debit_note)
    else if includes inherited_members key
    then inherited
    else absent

-- `if (value)`
unfoldable pub is_truthy : Value → Bool
is_truthy undefined = false
is_truthy null = false
is_truthy (boolean b) = b
is_truthy (number nan) = false
is_truthy (number (frac n _)) = not (n == 0)
is_truthy (number _) = true
is_truthy (string []) = false
is_truthy (string (_ ∷ _)) = true
is_truthy (other _) = true

-- `[A-Z0-9]`
abbrev pub is_series_unit : ℕ → Bool
is_series_unit c = is_upper c || is_digit c

-- `^[A-Z0-9]{4}$`, and with one of some first letters.
abbrev pub is_series : Text → Bool
is_series s = length s == 4 && all is_series_unit s

abbrev first_unit : (ℕ → Bool) → Text → Bool
first_unit p [] = false
first_unit p (c ∷ s) = p c && length s == 3 && all is_series_unit s

abbrev pub is_invoice_series : Text → Bool
is_invoice_series = first_unit (λ c. c == b'F')

abbrev pub is_receipt_series : Text → Bool
is_receipt_series = first_unit (λ c. c == b'B')

abbrev pub is_note_series : Text → Bool
is_note_series = first_unit (λ c. c == b'F' || c == b'B')

-- The type that a note refers to, `absent` where none is given.
unfoldable pub reference_entry : (Num → Text) → Value → Entry
unfolding is_truthy trim to_text document_type_normalization
reference_entry show reference =
    if is_truthy reference
    then document_type_normalization (trim (to_text show reference))
    else absent

abbrev refers_to_invoice : Entry → Bool
refers_to_invoice (kind invoice) = true
refers_to_invoice _ = false

abbrev refers_to_receipt : Entry → Bool
refers_to_receipt (kind receipt) = true
refers_to_receipt _ = false

-- The case of the notes.
unfoldable pub judge_note : Note → Entry → Text → Text → ValidationResult
unfolding is_upper is_digit
judge_note which reference raw safe =
    if refers_to_invoice reference && not (is_invoice_series raw)
    then invalid (note_of_invoice which safe) series
    else if refers_to_receipt reference && not (is_receipt_series raw)
    then invalid (note_of_receipt which safe) series
    else if not (is_note_series raw)
    then invalid (note_series which safe) series
    else valid

-- The `switch`; no case fits an inherited member, and the function returns `undefined`.
unfoldable pub judge_series : Entry → Entry → Text → Text → Option ValidationResult
unfolding judge_note is_upper is_digit
judge_series (kind invoice) reference raw safe =
    some (if not (is_invoice_series raw) then invalid (invoice_series safe) series else valid)
judge_series (kind receipt) reference raw safe =
    some (if not (is_receipt_series raw) then invalid (receipt_series safe) series else valid)
judge_series (kind (note which)) reference raw safe = some (judge_note which reference raw safe)
judge_series _ reference raw safe = none

abbrev pub is_absent : Entry → Bool
is_absent absent = true
is_absent _ = false

-- `none` is `undefined`.
unfoldable pub validate_series :
    (Num → Text) → (Text → Text) → Value → Value → Value → Option ValidationResult
unfolding to_text_or_empty trim to_upper document_type_normalization reference_entry judge_series
    sanitize_safe_text is_upper is_digit
validate_series show wide document_type given reference =
    let raw_type = trim (to_text_or_empty show document_type) in
    let raw = to_upper wide (trim (to_text_or_empty show given)) in
    let safe = sanitize_safe_text show (string raw) in
    let entry = document_type_normalization raw_type in
    if is_absent entry
    then some (invalid (unknown_document_type (sanitize_safe_text show (string raw_type))) series)
    else if not (is_series raw)
    then some (invalid (series_format safe) series)
    else judge_series entry (reference_entry show reference) raw safe

-- The exceptions of an assertion: `res.isValid` of `undefined` is a `TypeError`.
pub data AssertError : Type 0 where
  bad_request : PeruError → AssertError
  type_error : AssertError

unfoldable pub assert_valid_series :
    (Num → Text) → (Text → Text) → Value → Value → Value → Result AssertError (Unit {0})
unfolding validate_series
assert_valid_series show wide document_type given reference =
    elim (validate_series show wide document_type given reference) [
      | none ↦ err type_error
      | some (valid) ↦ ok tt
      | some (invalid e _) ↦ err (bad_request e)
    ]

abbrev pub supported_currencies : List Text
supported_currencies = codes "PEN" ∷ codes "USD" ∷ []

abbrev currency_text : (Text → Text) → Value → Text
currency_text wide (string s) = to_upper wide (trim s)
currency_text wide _ = codes ""

unfoldable pub validate_currency : (Num → Text) → (Text → Text) → Value → ValidationResult
unfolding includes to_upper trim sanitize_safe_text
validate_currency show wide given =
    let raw = currency_text wide given in
    if not (includes supported_currencies raw)
    then invalid (unknown_currency (sanitize_safe_text show (string raw))) currency
    else valid

unfoldable pub assert_valid_currency :
    (Num → Text) → (Text → Text) → Value → Result PeruError (Unit {0})
unfolding assert_result validate_currency
assert_valid_currency show wide given = assert_result (validate_currency show wide given)
