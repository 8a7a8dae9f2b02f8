-- ===== src/Sunat/Public.antt =====
-- What the classification of an error shows of it (src/sunat-errors/sunat-error-classifier.service.ts).
use facturify.Base.{
  ℕ, ◌≤◌, ◌≡◌, ◌⊎◌, refl, sym, Bool, true, false, ◌&&◌, Option, none, some, List, [], ◌∷◌, all,
  length, leb, ltb, arith, Bool-cases, Option-cases, inl, inr,
}
use facturify.Js.Text.{Text, codes, text_eq, is_alnum, is_digit, is_upper, is_lower, includes}
use facturify.Js.Text.Laws.{eq_of_text_eq}
use facturify.Js.Number.{Num}
use facturify.Sunat.Table.{
  SunatErrorCategory, validation, rejected, unknown, ErrorDefinition, category_retryable,
  category_default_message,
}
use facturify.Sunat.Table.Authentication.{authentication_errors}
use facturify.Sunat.Table.Duplicates.{duplicate_errors}
use facturify.Sunat.Table.Transport.{temporary_errors}
use facturify.Sunat.Table.Validation.{validation_errors}
use facturify.Sunat.Table.Rejections.{rejected_errors}
use facturify.Sunat.Tokens.{is_code_unit}
use facturify.Sunat.Codes.{
  explicit_error_map, find_row, found, inherited, absent, inherited_names, lookup_code, ErrorInput,
  extract_canonical_code,
}
use facturify.Sunat.Classifier.{
  Classified, with_default, four_digit_number, classify_unknown, classify_range, classify_code,
  classify,
}

and_true : (a b : Bool) → (a && b) ≡ true → (a ≡ true) × (b ≡ true)
and_true a b h = (ground (arith, h), ground (arith, h))

-- A test that every row passes holds of the row that is found.
pub find_row-all :
    (f : Text × ErrorDefinition → Bool) (code : Text) (rows : List (Text × ErrorDefinition))
    (definition : ErrorDefinition)
    → all f rows ≡ true
    → find_row code rows ≡ some definition
    → f (code, definition) ≡ true
unfolding find_row
find_row-all f code [] definition h e = cc
find_row-all f code (r ∷ rs) definition h e =
    let (head, tail) = and_true (f r) (all f rs) h in
    elim (Bool-cases (text_eq r.0 code)) [
      | inl hit ↦
          let value : Path (Option ErrorDefinition) (some r.1) (some definition) = rw hit at e in
          let same : r.1 ≡ definition = cc in rw (sym (eq_of_text_eq r.0 code hit), sym same) head
      | inr miss ↦ find_row-all f code rs definition tail (rw miss at e)
    ]

abbrev is_short : Text → Bool
is_short s = leb 1 (length s) && leb (length s) 20 && all is_code_unit s

-- One of the messages of the table or of the categories.
abbrev pub IsKnownMessage : Text → Type 0
IsKnownMessage s =
    ((category : SunatErrorCategory) × (s ≡ category_default_message category))
    ⊎ ((key : Text) × (definition : ErrorDefinition) × (find_row key explicit_error_map
          ≡ some definition)
        × (s ≡ definition.public_message))

pub record IsPublic (r : Classified) : Type 0 where
  pub code_min : 1 ≤ length r.public_code
  pub code_max : length r.public_code ≤ 20
  pub code_units : all is_code_unit r.public_code ≡ true
  pub known_message : IsKnownMessage r.public_message
  pub same_retryable : r.retryable ≡ category_retryable r.category

rows_short : all (λ r. is_short r.1.public_code) explicit_error_map ≡ true
unfolding explicit_error_map authentication_errors duplicate_errors temporary_errors
    validation_errors rejected_errors is_code_unit is_alnum is_digit is_upper is_lower
rows_short = refl

short_parts :
    (code : Text)
    → is_short code ≡ true
    → (1 ≤ length code) × (length code ≤ 20) × (all is_code_unit code ≡ true)
short_parts code h = (ground (arith, h), ground (arith, h), ground (arith, h))

-- A code that is shown as it is.
short-Public :
    (code : Text) (category : SunatErrorCategory)
    → is_short code ≡ true
    → category_retryable category ≡ false
    → IsPublic (with_default category code)
short-Public code category h k =
    let (low, high, units) = short_parts code h in
    record {
      code_min = low;
      code_max = high;
      code_units = units;
      known_message = inl (category, refl);
      same_retryable = sym k;
    }

row-Public :
    (key : Text) (definition : ErrorDefinition)
    → find_row key explicit_error_map ≡ some definition
    → is_short definition.public_code ≡ true
    → IsPublic (record {
      category = definition.category;
      retryable = category_retryable definition.category;
      public_code = definition.public_code;
      public_message = definition.public_message;
    })
row-Public key definition row h =
    let (low, high, units) = short_parts definition.public_code h in
    record {
      code_min = low;
      code_max = high;
      code_units = units;
      known_message = inr (key, definition, row, refl);
      same_retryable = refl;
    }

unknown_short : is_short (codes "UNKNOWN") ≡ true
unfolding is_code_unit is_alnum is_digit is_upper is_lower
unknown_short = refl

unknown-Public : (code : Text) → IsPublic (classify_unknown code)
unfolding classify_unknown category_retryable
unknown-Public code = elim (Bool-cases (is_short code)) [
  | inl short ↦ rw short (short-Public code unknown short refl)
  | inr long ↦ rw long (short-Public (codes "UNKNOWN") unknown unknown_short refl)
]

pub digit-unit : (c : ℕ) → is_digit c ≡ true → is_code_unit c ≡ true
unfolding is_code_unit is_alnum
digit-unit c h = ground (arith, h)

four_digits_short : (code : Text) (n : ℕ) → four_digit_number code ≡ some n → is_short code ≡ true
unfolding four_digit_number is_code_unit is_alnum
four_digits_short [] n h = cc
four_digits_short (a ∷ []) n h = cc
four_digits_short (a ∷ b ∷ []) n h = cc
four_digits_short (a ∷ b ∷ c ∷ []) n h = cc
four_digits_short (a ∷ b ∷ c ∷ d ∷ []) n h =
    elim (Bool-cases (is_digit a && is_digit b && is_digit c && is_digit d)) [
      | inl digits ↦ ground (arith, digits, digit-unit a, digit-unit b, digit-unit c, digit-unit d)
      | inr no_digits ↦ let no : Path (Option ℕ) none (some n) = rw no_digits at h in cc
    ]
four_digits_short (a ∷ b ∷ c ∷ d ∷ e ∷ s) n h = cc

range-Public : (code : Text) → IsPublic (classify_range code (four_digit_number code))
unfolding classify_range category_retryable
range-Public code = elim (Option-cases (four_digit_number code)) [
  | inl none_is ↦ rw none_is (unknown-Public code)
  | inr (n, number) ↦
      let short = four_digits_short code n number in
      elim (Bool-cases (leb 2000 n && ltb n 3000)) [
        | inl low ↦ rw (number, low) (short-Public code validation short refl)
        | inr not_low ↦ elim (Bool-cases (leb 3000 n && leb n 4999)) [
          | inl high ↦ rw (number, not_low, high) (short-Public code rejected short refl)
          | inr not_high ↦ rw (number, not_low, not_high) (unknown-Public code)
        ]
      ]
]

-- What is known of every answer: it is public, or all its fields are undefined and the code is a name
-- that every object inherits.
abbrev pub IsAnswer : Option Text → Option Classified → Type 0
IsAnswer code (some r) = IsPublic r
IsAnswer code none = (name : Text) × (code ≡ some name) × (includes inherited_names name ≡ true)

-- The three things that a code can be in the table.
pub lookup_code-cases :
    (code : Text)
    → ((definition : ErrorDefinition) × (lookup_code code ≡ found definition)
        × (find_row code explicit_error_map ≡ some definition))
      ⊎ (((lookup_code code ≡ inherited) × (includes inherited_names code ≡ true))
          ⊎ ((lookup_code code ≡ absent) × (find_row code explicit_error_map ≡ none)))
unfolding lookup_code
lookup_code-cases code = elim (Option-cases (find_row code explicit_error_map)) [
  | inl free ↦ elim (Bool-cases (includes inherited_names code)) [
    | inl name ↦ inr (inl (rw (free, name) refl, name))
    | inr other_name ↦ inr (inr (rw (free, other_name) refl, free))
  ]
  | inr (definition, row) ↦ inl (definition, rw row refl, row)
]

code-Answer : (code : Text) → IsAnswer (some code) (classify_code code)
unfolding classify_code
code-Answer code = elim (lookup_code-cases code) [
  | inl (definition, is_found, row) ↦
      let short : is_short definition.public_code ≡ true =
        find_row-all (λ r. is_short r.1.public_code) code explicit_error_map definition rows_short
          row in
      rw is_found (row-Public code definition row short)
  | inr (inl (is_inherited, name)) ↦ rw is_inherited (code, refl, name)
  | inr (inr (is_absent, _)) ↦ rw is_absent (range-Public code)
]

-- Whatever the error is, the answer shows nothing of it but a code of 1 to 20 letters, digits, hyphens
-- and low lines, with a fixed message, and it can be tried again just if its category is the temporary
-- one. The one exception: all four fields are undefined where the code that is read in the error is a
-- name that every object inherits, as `constructor`.
pub classify-Answer :
    (show : Num → Text) (input : ErrorInput)
    → IsAnswer (extract_canonical_code show input) (classify show input)
unfolding classify category_retryable
classify-Answer show input = elim (Option-cases (extract_canonical_code show input)) [
  | inl no_code ↦ rw (no_code, classify) (short-Public (codes "UNKNOWN") unknown unknown_short refl)
  | inr (code, has_code) ↦ rw (has_code, classify) (code-Answer code)
]
