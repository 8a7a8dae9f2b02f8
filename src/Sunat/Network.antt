-- ===== src/Sunat/Network.antt =====
-- Errors of the network (src/sunat-errors/sunat-error-classifier.service.ts).
use facturify.Base.{
  ℕ, ◌≡◌, refl, sym, Bool, true, false, not, ◌||◌, Option, none, some, List, [], ◌∷◌, all, length,
  ◌==◌, arith, Bool-cases, Option-cases, inl, inr,
}
use facturify.Js.Text.{Text, text_eq, includes, trim, is_space}
use facturify.Js.Text.Laws.{eq_of_text_eq}
use facturify.Js.Number.{Num}
use facturify.Js.Pattern.{unit_then, maybe_then, star_then, word_then, found_in}
use facturify.Sunat.Table.{
  SunatErrorCategory, authentication, validation, duplicate, rejected, unknown, temporary,
  ErrorDefinition, category_retryable,
}
use facturify.Sunat.Table.Authentication.{authentication_errors}
use facturify.Sunat.Table.Duplicates.{duplicate_errors}
use facturify.Sunat.Table.Transport.{temporary_errors}
use facturify.Sunat.Table.Validation.{validation_errors}
use facturify.Sunat.Table.Rejections.{rejected_errors}
use facturify.Sunat.Tokens.{network_tests, first_true, network_token}
use facturify.Sunat.Codes.{
  explicit_error_map, find_row, found, absent, inherited_names, lookup_code, ErrorInput, input_text,
  code_of_text, extract_canonical_code,
}
use facturify.Sunat.Classifier.{Classified, classify_code, classify}
use facturify.Sunat.Public.{find_row-all, lookup_code-cases}

abbrev is_temporary : SunatErrorCategory → Bool
is_temporary temporary = true
is_temporary _ = false

abbrev is_some : Option Text → Bool
is_some none = false
is_some (some _) = true

abbrev holds_if_there : (Text → Bool) → Option Text → Bool
holds_if_there f none = true
holds_if_there f (some t) = f t

first_true-all :
    (f : Text → Bool) (ps : List (Bool × Text))
    → all (λ p. f p.1) ps ≡ true
    → holds_if_there f (first_true ps) ≡ true
unfolding first_true
first_true-all f [] h = refl
first_true-all f (p ∷ ps) h =
    let head : f p.1 ≡ true = ground (arith, h) in
    let tail : all (λ p. f p.1) ps ≡ true = ground (arith, h) in
    elim (Bool-cases p.0) [ inl hit ↦ rw hit head | inr miss ↦ rw miss (first_true-all f ps tail) ]

-- The code is that of a row of the temporary category.
abbrev is_retried_code : Text → Bool
is_retried_code t = elim (find_row t explicit_error_map) [
  | some definition ↦ is_temporary definition.category
  | none ↦ false
]

tokens_retried : (s : Text) → all (λ p. is_retried_code p.1) (network_tests s) ≡ true
unfolding network_tests find_row text_eq explicit_error_map authentication_errors duplicate_errors
    temporary_errors validation_errors rejected_errors
tokens_retried s = refl

token-retried : (s : Text) → holds_if_there is_retried_code (network_token s) ≡ true
unfolding network_token
token-retried s = first_true-all is_retried_code (network_tests s) (tokens_retried s)

rows_retried :
    all (λ r. not (is_some (network_token r.0)) || is_temporary r.1.category) explicit_error_map
    ≡ true
unfolding explicit_error_map authentication_errors duplicate_errors temporary_errors
    validation_errors rejected_errors network_token network_tests first_true found_in word_then
    star_then maybe_then unit_then is_space
rows_retried = refl

names_plain : all (λ s. not (is_some (network_token s))) inherited_names ≡ true
unfolding inherited_names network_token network_tests first_true found_in word_then star_then
    maybe_then unit_then is_space
names_plain = refl

-- What the first answer of a chain of tests leaves of a text with a token.
code_of_text-token :
    (s t : Text) → lookup_code s ≡ absent → network_token s ≡ some t → code_of_text s ≡ some t
unfolding code_of_text
code_of_text-token s t h k = rw (h, k) refl

code_of_text-row :
    (s : Text) (definition : ErrorDefinition)
    → lookup_code s ≡ found definition
    → code_of_text s ≡ some s
unfolding code_of_text
code_of_text-row s definition h = rw h refl

includes-all :
    (f : Text → Bool) (ts : List Text) (s : Text)
    → all f ts ≡ true
    → includes ts s ≡ true
    → f s ≡ true
unfolding includes
includes-all f [] s h k = cc
includes-all f (t ∷ ts) s h k =
    let head : f t ≡ true = ground (arith, h) in
    let tail : all f ts ≡ true = ground (arith, h) in
    elim (Bool-cases (text_eq t s)) [
      | inl hit ↦ rw (sym (eq_of_text_eq t s hit)) head
      | inr miss ↦ includes-all f ts s tail (rw miss at k)
    ]

is_temporary-eq : (c : SunatErrorCategory) → is_temporary c ≡ true → c ≡ temporary
is_temporary-eq authentication h = cc
is_temporary-eq validation h = cc
is_temporary-eq duplicate h = cc
is_temporary-eq rejected h = cc
is_temporary-eq temporary h = refl
is_temporary-eq unknown h = cc

pub cons_there : (c : ℕ) (s : Text) → (length (c ∷ s) == 0) ≡ false
cons_there c s = ground arith

token_there : (s t : Text) → network_token s ≡ some t → (length s == 0) ≡ false
unfolding network_token network_tests first_true found_in word_then star_then maybe_then unit_then
    is_space
token_there [] t h = cc
token_there (c ∷ s) t h = cons_there c s

-- The answer of the temporary category.
abbrev IsRetried : Option Classified → Type 0
IsRetried answer =
    (r : Classified) × (answer ≡ some r) × (r.category ≡ temporary) × (r.retryable ≡ true)

row-IsRetried :
    (code : Text) (definition : ErrorDefinition)
    → lookup_code code ≡ found definition
    → is_temporary definition.category ≡ true
    → IsRetried (classify_code code)
unfolding classify_code category_retryable
row-IsRetried code definition h k =
    let category = is_temporary-eq definition.category k in
    rw h (_, refl, category, rw category refl)

code-IsRetried : (code : Text) → is_retried_code code ≡ true → IsRetried (classify_code code)
unfolding lookup_code
code-IsRetried code h = elim (Option-cases (find_row code explicit_error_map)) [
  | inl no_row ↦ let no : false ≡ true = rw (no_row, is_retried_code) at h in cc
  | inr (definition, row) ↦
      row-IsRetried code definition (rw row refl) (rw (row, is_retried_code) at h)
]

extract-code :
    (show : Num → Text) (input : ErrorInput) (code : Text)
    → (length (trim (input_text show input)) == 0) ≡ false
    → code_of_text (trim (input_text show input)) ≡ some code
    → extract_canonical_code show input ≡ some code
unfolding extract_canonical_code
extract-code show input code h k = rw (extract_canonical_code, h) k

pub classify-code :
    (show : Num → Text) (input : ErrorInput) (code : Text)
    → (length (trim (input_text show input)) == 0) ≡ false
    → code_of_text (trim (input_text show input)) ≡ some code
    → classify show input ≡ classify_code code
unfolding classify
classify-code show input code h k = rw (extract-code show input code h k, classify) refl

-- An error whose text holds a token of the network, in capitals or not, is temporary and can be tried
-- again.
pub classify-network :
    (show : Num → Text) (input : ErrorInput) (token : Text)
    → network_token (trim (input_text show input)) ≡ some token
    → (r : Classified) × (classify show input ≡ some r)
      × (r.category ≡ temporary)
      × (r.retryable ≡ true)
classify-network show input token h =
    let s = trim (input_text show input) in
    let there = token_there s token h in
    elim (lookup_code-cases s) [
      | inl (definition, is_found, row) ↦
          let retried =
            find_row-all (λ r. not (is_some (network_token r.0)) || is_temporary r.1.category) s
              explicit_error_map definition rows_retried row in
          rw (classify-code show input s there (code_of_text-row s definition is_found))
            (row-IsRetried s definition is_found (rw h at retried))
      | inr (inl (is_inherited, name)) ↦
          let plain =
            includes-all (λ s. not (is_some (network_token s))) inherited_names s names_plain
              name in
          let no : false ≡ true = rw h at plain in cc
      | inr (inr (is_absent, _)) ↦
          let retried : is_retried_code token ≡ true = rw h at (token-retried s) in
          rw (classify-code show input token there (code_of_text-token s token is_absent h))
            (code-IsRetried token retried)
    ]
