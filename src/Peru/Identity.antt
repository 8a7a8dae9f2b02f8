-- ===== src/Peru/Identity.antt =====
-- `validateDni` and `validateIdentityDocument` (src/peru-validation/peru-validation.service.ts).
pub mod Laws
use facturify.Base.{
  ℕ, ◌+◌, ◌-◌, Bool, true, false, not, ◌&&◌, ◌||◌, List, [], ◌∷◌, all, length, leb, ◌==◌,
  if◌then◌else◌, Option, none, some,
}
use facturify.Base.Result.{Result}
use facturify.Js.Text.{Text, codes, text_eq, trim, is_alnum}
use facturify.Js.Number.{Num}
use facturify.Js.Value.{Value, string, to_text_or_empty}
use facturify.Peru.{
  PeruError, dni_format, dni_sequence, unknown_identity_type, carnet_format, passport_format,
  cedula_format, other_document_format, customer_document_number, customer_document_type,
  ValidationResult, valid, invalid, raw_text, is_digits, assert_result,
}
use facturify.Peru.Sanitizer.{mask_identity_document, sanitize_safe_text}
use facturify.Peru.Ruc.{validate_ruc}

pub data IdentityDocumentType : Type 0 where
  no_domiciliado dni carnet_extranjeria ruc pasaporte cedula_diplomatica doc_ident_pais_residencia :
      IdentityDocumentType

unfoldable pub identity_code : IdentityDocumentType → Text
identity_code no_domiciliado = codes "0"
identity_code dni = codes "1"
identity_code carnet_extranjeria = codes "4"
identity_code ruc = codes "6"
identity_code pasaporte = codes "7"
identity_code cedula_diplomatica = codes "A"
identity_code doc_ident_pais_residencia = codes "B"

abbrev pub identity_types : List IdentityDocumentType
identity_types =
    no_domiciliado ∷ dni ∷ carnet_extranjeria ∷ ruc ∷ pasaporte ∷ cedula_diplomatica
    ∷ doc_ident_pais_residencia ∷ []

-- The type with a code, if one has it.
unfoldable pub find_identity_type : List IdentityDocumentType → Text → Option IdentityDocumentType
unfolding identity_code text_eq
find_identity_type [] s = none
find_identity_type (t ∷ ts) s =
    let rest = find_identity_type ts s in if text_eq (identity_code t) s then some t else rest

-- `^(\d)\1{7}$` on eight digits.
abbrev is_sequence : Text → Bool
is_sequence [] = false
is_sequence (c ∷ s) = all (λ d. d == c) s

unfoldable pub validate_dni : (Num → Text) → Value → ValidationResult
unfolding raw_text is_digits mask_identity_document
validate_dni show given =
    let raw = raw_text show given in
    let masked = mask_identity_document show (string raw) in
    if not (is_digits 8 raw)
    then invalid (dni_format masked) customer_document_number
    else if is_sequence raw
    then invalid (dni_sequence masked) customer_document_number
    else valid

-- `^[a-zA-Z0-9-]{low,high}$`, and `^[a-zA-Z0-9._-]{low,high}$`
abbrev pub is_alnum_dash : ℕ → Bool
is_alnum_dash c = is_alnum c || c == b'-'

abbrev pub is_other_unit : ℕ → Bool
is_other_unit c = is_alnum_dash c || c == b'.' || c == b'_'

abbrev pub matches_range : (ℕ → Bool) → ℕ → ℕ → Text → Bool
matches_range p low high s = leb low (length s) && leb (length s) high && all p s

-- The `switch` over the type, on the trimmed number.
unfoldable pub judge_identity : (Num → Text) → IdentityDocumentType → Text → ValidationResult
unfolding is_alnum validate_ruc validate_dni mask_identity_document
judge_identity show ruc number = validate_ruc show (string number)
judge_identity show dni number = validate_dni show (string number)
judge_identity show carnet_extranjeria number =
    if matches_range is_alnum_dash 4 12 number
    then valid
    else invalid (carnet_format (mask_identity_document show (string number)))
        customer_document_number
judge_identity show pasaporte number =
    if matches_range is_alnum_dash 4 12 number
    then valid
    else invalid (passport_format (mask_identity_document show (string number)))
        customer_document_number
judge_identity show cedula_diplomatica number =
    if matches_range is_alnum_dash 4 15 number
    then valid
    else invalid (cedula_format (mask_identity_document show (string number)))
        customer_document_number
judge_identity show no_domiciliado number =
    if matches_range is_other_unit 1 15 number
    then valid
    else invalid (other_document_format (mask_identity_document show (string number)))
        customer_document_number
judge_identity show doc_ident_pais_residencia number =
    if matches_range is_other_unit 1 15 number
    then valid
    else invalid (other_document_format (mask_identity_document show (string number)))
        customer_document_number

unfoldable pub validate_identity_document : (Num → Text) → Value → Value → ValidationResult
unfolding to_text_or_empty trim find_identity_type judge_identity sanitize_safe_text
validate_identity_document show type given =
    let type_text = trim (to_text_or_empty show type) in
    let number_text = trim (to_text_or_empty show given) in
    elim (find_identity_type identity_types type_text) [
      | none ↦
          invalid (unknown_identity_type (sanitize_safe_text show (string type_text)))
            customer_document_type
      | some t ↦ judge_identity show t number_text
    ]

unfoldable pub assert_valid_dni : (Num → Text) → Value → Result PeruError (Unit {0})
unfolding assert_result validate_dni
assert_valid_dni show given = assert_result (validate_dni show given)

unfoldable pub assert_valid_identity_document :
    (Num → Text) → Value → Value → Result PeruError (Unit {0})
unfolding assert_result validate_identity_document
assert_valid_identity_document show type given =
    assert_result (validate_identity_document show type given)
