-- ===== src/Catalogs.antt =====
-- The catalogues of SUNAT with their assertions (src/sunat-catalogs). A catalogue is a list of its codes;
-- the message of an exception is the catalogue and the text put in the message.
pub mod Laws
mod Tests
use facturify.Base.{
  ℕ, Bool, true, false, ◌&&◌, ◌||◌, List, [], ◌∷◌, ◌++◌, map, take, length, leb, ltb, ◌==◌,
  if◌then◌else◌,
}
use facturify.Base.Result.{Result, ok, err}
use facturify.Js.Text.{Text, codes, includes, is_space, trim}
use facturify.Js.Number.{Num}
use facturify.Js.Value.{Value, string, is_nullish, to_text}

abbrev pub sunat_document_types : List Text
sunat_document_types = map codes ("01" ∷ "03" ∷ "07" ∷ "08" ∷ [])

abbrev pub sunat_identity_types : List Text
sunat_identity_types = map codes ("0" ∷ "1" ∷ "4" ∷ "6" ∷ "7" ∷ "A" ∷ "B" ∷ [])

abbrev pub sunat_credit_note_reasons : List Text
sunat_credit_note_reasons =
    map codes (
      "01" ∷ "02" ∷ "03" ∷ "04" ∷ "05" ∷ "06" ∷ "07" ∷ "08" ∷ "09" ∷ "10" ∷ "11" ∷ "12" ∷ "13" ∷ [])

abbrev pub sunat_debit_note_reasons : List Text
sunat_debit_note_reasons = map codes ("01" ∷ "02" ∷ "03" ∷ "10" ∷ "11" ∷ [])

abbrev pub sunat_tax_affectations : List Text
sunat_tax_affectations = map codes (
    "10" ∷ "11" ∷ "12" ∷ "13" ∷ "14" ∷ "15" ∷ "16" ∷ "17" ∷ "20" ∷ "21" ∷ "30" ∷ "31" ∷ "32" ∷ "33"
    ∷ "34" ∷ "35" ∷ "36" ∷ "40" ∷ [])

abbrev pub sunat_unit_measures : List Text
sunat_unit_measures = map codes ("NIU" ∷ "ZZ" ∷ "KGM" ∷ "LTR" ∷ [])

abbrev pub sunat_currencies : List Text
sunat_currencies = map codes ("PEN" ∷ "USD" ∷ [])

pub data Catalog : Type 0 where
  document_type identity_type credit_note_reason debit_note_reason : Catalog
  tax_affectation unit_measure currency : Catalog

-- The set that a pair of methods, as `isValidCurrency` and `assertValidCurrency`, asks.
abbrev pub codes_of : Catalog → List Text
codes_of document_type = sunat_document_types
codes_of identity_type = sunat_identity_types
codes_of credit_note_reason = sunat_credit_note_reasons
codes_of debit_note_reason = sunat_debit_note_reasons
codes_of tax_affectation = sunat_tax_affectations
codes_of unit_measure = sunat_unit_measures
codes_of currency = sunat_currencies

unfoldable pub is_valid_code : Catalog → Value → Bool
unfolding includes
is_valid_code catalog (string s) = includes (codes_of catalog) s
is_valid_code catalog _ = false

-- `[\u0000-\u001F\u007F-\u009F]`
unfoldable pub is_control : ℕ → Bool
is_control c = leb c 0x1F || (leb 0x7F c && leb c 0x9F)

abbrev pub space_for_control : ℕ → ℕ
space_for_control c = if is_control c then 32 else c

abbrev pub starts_with_space : Text → Bool
starts_with_space [] = false
starts_with_space (c ∷ s) = is_space c

-- `replace(/\s+/g, ' ')`: the last unit of a run becomes the space.
unfoldable pub collapse_spaces : Text → Text
unfolding is_space
collapse_spaces [] = []
collapse_spaces (c ∷ s) =
    let rest = collapse_spaces s in
    if is_space c then (if starts_with_space s then rest else 32 ∷ rest) else c ∷ rest

abbrev pub empty_text : Text
empty_text = codes "(vacío)"

abbrev pub shorten : Text → Text
shorten [] = empty_text
shorten (c ∷ s) = if ltb 30 (length (c ∷ s)) then take 30 (c ∷ s) ++ codes "..." else c ∷ s

unfoldable pub sanitize_catalog_code : (Num → Text) → Value → Text
unfolding is_control trim collapse_spaces is_nullish to_text
sanitize_catalog_code show code =
    if is_nullish code
    then empty_text
    else shorten (collapse_spaces (trim (map space_for_control (to_text show code))))

pub record InvalidCode : Type 0 where
  pub catalog : Catalog
  pub sanitized : Text

unfoldable pub assert_valid_code : (Num → Text) → Catalog → Value → Result InvalidCode (Unit {0})
unfolding is_valid_code sanitize_catalog_code
assert_valid_code show catalog code =
    if is_valid_code catalog code
    then ok tt
    else err (record { catalog = catalog; sanitized = sanitize_catalog_code show code })
