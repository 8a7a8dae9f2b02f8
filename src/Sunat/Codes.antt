-- ===== src/Sunat/Codes.antt =====
-- `extractCanonicalCode` (src/sunat-errors/sunat-error-classifier.service.ts).
use facturify.Base.{
  Bool, true, false, Option, none, some, List, [], ◌∷◌, ◌++◌, length, ◌==◌, if◌then◌else◌,
}
use facturify.Js.Text.{Text, codes, text_eq, includes, trim}
use facturify.Js.Number.{Num}
use facturify.Js.Value.{Value, to_text_or_empty}
use facturify.Sunat.Table.{ErrorDefinition}
use facturify.Sunat.Tokens.{network_token, http_status, four_digits, cleaned}
use facturify.Sunat.Table.Authentication.{authentication_errors}
use facturify.Sunat.Table.Duplicates.{duplicate_errors}
use facturify.Sunat.Table.Transport.{temporary_errors}
use facturify.Sunat.Table.Validation.{validation_errors}
use facturify.Sunat.Table.Rejections.{rejected_errors}

-- `EXPLICIT_ERROR_MAP`
unfoldable pub explicit_error_map : List (Text × ErrorDefinition)
unfolding authentication_errors duplicate_errors temporary_errors validation_errors rejected_errors
explicit_error_map =
    authentication_errors ++ duplicate_errors ++ temporary_errors ++ validation_errors
    ++ rejected_errors

unfoldable pub find_row : Text → List (Text × ErrorDefinition) → Option ErrorDefinition
unfolding text_eq
find_row code [] = none
find_row code (r ∷ rs) = let rest = find_row code rs in if text_eq r.0 code then some r.1 else rest

-- The names that an object has from `Object.prototype`.
unfoldable pub inherited_names : List Text
inherited_names =
    codes "constructor"
    ∷ codes "hasOwnProperty"
    ∷ codes "isPrototypeOf"
    ∷ codes "propertyIsEnumerable"
    ∷ codes "toLocaleString"
    ∷ codes "toString"
    ∷ codes "valueOf"
    ∷ codes "__proto__"
    ∷ codes "__defineGetter__"
    ∷ codes "__defineSetter__"
    ∷ codes "__lookupGetter__"
    ∷ codes "__lookupSetter__"
    ∷ []

-- What `EXPLICIT_ERROR_MAP[code]` is: a definition, what the object inherits, or undefined.
pub data Lookup : Type 0 where
  found : ErrorDefinition → Lookup
  inherited absent : Lookup

unfoldable pub lookup_code : Text → Lookup
unfolding find_row explicit_error_map inherited_names includes
lookup_code code = elim (find_row code explicit_error_map) [
  | some definition ↦ found definition
  | none ↦ if includes inherited_names code then inherited else absent
]

abbrev pub is_defined : Lookup → Bool
is_defined (found _) = true
is_defined inherited = true
is_defined absent = false

-- What is classified: a string, a number, an `Error`, another object, or any other value.
pub data ErrorInput : Type 0 where
  nothing : ErrorInput
  text : Text → ErrorInput
  number : Num → ErrorInput
  error : Text → Text → ErrorInput
  object : Value → Value → Value → Value → ErrorInput
  other : ErrorInput

-- The text of an input that is neither null nor undefined.
unfoldable pub input_text : (Num → Text) → ErrorInput → Text
unfolding to_text_or_empty
input_text show nothing = []
input_text show (text s) = s
input_text show (number x) = show x
input_text show (error name message) = name ++ (b' ' ∷ message)
input_text show (object code status_code message faultstring) =
    to_text_or_empty show code
    ++ (b' '
        ∷ (to_text_or_empty show status_code
            ++ (b' '
                ∷ (to_text_or_empty show message ++ (b' ' ∷ to_text_or_empty show faultstring)))))
input_text show other = []

-- The first that is there.
abbrev first_of : Option Text → Option Text → Option Text
first_of (some x) y = some x
first_of none y = y

-- A text that is not empty, without white space around it.
unfoldable pub code_of_text : Text → Option Text
unfolding lookup_code network_token http_status four_digits cleaned
code_of_text s =
    if is_defined (lookup_code s)
    then some s
    else first_of (network_token s) (
        first_of
          (elim (http_status false s) [
            | some status ↦ some (codes "HTTP_" ++ status)
            | none ↦ none
          ])
          (first_of (four_digits false s) (cleaned s)))

unfoldable pub extract_canonical_code : (Num → Text) → ErrorInput → Option Text
unfolding input_text trim code_of_text
extract_canonical_code show input =
    let s = trim (input_text show input) in if length s == 0 then none else code_of_text s
