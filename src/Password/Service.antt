-- ===== src/Password/Service.antt =====
-- `PasswordPolicyService` (src/password-policy/password-policy.service.ts).
use facturify.Base.{
  ℕ, Bool, true, false, not, ◌&&◌, ◌||◌, Option, none, some, List, [], ◌∷◌, ◌++◌, any, length, leb,
  ltb, ◌==◌, if◌then◌else◌,
}
use facturify.Base.Result.{Result, ok, err}
use facturify.Js.Text.{Text, codes, is_digit, is_upper, is_lower, is_alnum, is_space}
use facturify.Js.Search.{contains}
use facturify.Js.Value.{Value, string}
use facturify.Password.Text.{
  Letters, normalize_text, normalize_with_leet, contains_control_characters,
  has_excessive_repetitions,
}

pub data PasswordError : Type 0 where
  not_a_string too_short too_long outer_whitespace control_characters missing_uppercase :
      PasswordError
  missing_lowercase missing_number missing_special common_weak_pattern excessive_repetition :
      PasswordError
  personal_data : PasswordError

abbrev pub min_length : ℕ
min_length = 12

abbrev pub max_length : ℕ
max_length = 128

abbrev pub max_consecutive_identical_chars : ℕ
max_consecutive_identical_chars = 3

-- `contraseña` has its tilde in the unit 0xF1.
abbrev pub forbidden_words : List Text
forbidden_words =
    codes "password"
    ∷ codes "contrasena"
    ∷ codes "contraseña"
    ∷ codes "admin"
    ∷ codes "facturify"
    ∷ codes "qwerty"
    ∷ codes "123456"
    ∷ codes "12345678"
    ∷ codes "letmein"
    ∷ codes "welcome"
    ∷ codes "administrator"
    ∷ codes "root"
    ∷ []

-- An email or a name that is missing is the empty text.
pub record PasswordValidationContext : Type 0 where
  pub email : Text
  pub name : Text

pub record PasswordValidationResult : Type 0 where
  pub valid : Bool
  pub errors : List PasswordError

abbrev pub when : Bool → PasswordError → List PasswordError
when true e = e ∷ []
when false e = []

abbrev pub is_edge_unit : ℕ → Bool
is_edge_unit c = c == b' ' || c == 9

abbrev pub last_is_edge : Text → Bool
last_is_edge [] = false
last_is_edge (c ∷ []) = is_edge_unit c
last_is_edge (c ∷ d ∷ s) = last_is_edge (d ∷ s)

-- A space or a tabulator at the start or the end.
unfoldable pub has_outer_whitespace : Text → Bool
has_outer_whitespace [] = false
has_outer_whitespace (c ∷ s) = is_edge_unit c || last_is_edge (c ∷ s)

abbrev pub is_special : ℕ → Bool
is_special c = not (is_alnum c || is_space c)

-- A forbidden word, as it stands or under the substitutions of digits and signs for letters.
abbrev pub has_word : Letters → Text → Text → Bool
has_word letters password word =
    contains (normalize_text letters word) (normalize_text letters password)
    || contains (normalize_with_leet letters word) (normalize_with_leet letters password)

-- `[\s,.-_]`, in which `.-_` is a range.
abbrev pub is_separator : ℕ → Bool
is_separator c = is_space c || c == b',' || (leb b'.' c && leb c b'_')

abbrev pub starts_separated : Text → Bool
starts_separated [] = false
starts_separated (c ∷ s) = is_separator c

abbrev onto_first : ℕ → List Text → List Text
onto_first c [] = (c ∷ []) ∷ []
onto_first c (t ∷ ts) = (c ∷ t) ∷ ts

-- `split`, with a run of separators between two parts.
unfoldable pub split_name : Text → List Text
split_name [] = [] ∷ []
split_name (c ∷ s) =
    let rest = split_name s in
    if is_separator c then (if starts_separated s then rest else [] ∷ rest) else onto_first c rest

-- Up to the first `@`, or the whole text.
unfoldable pub local_part : Text → Text
local_part [] = []
local_part (c ∷ s) = let rest = local_part s in if c == b'@' then [] else c ∷ rest

-- A part of at least three units that the password has, as it stands or under the substitutions.
abbrev pub has_part : Text → Text → Text → Bool
has_part normalized leet part =
    leb 3 (length part) && (contains part normalized || contains part leet)

-- The email, or its part up to the `@`, where there is an email.
abbrev pub has_email : Letters → Text → Text → Text → Bool
has_email letters normalized leet given =
    let email = normalize_text letters given in
    not (length given == 0)
    && ((leb 3 (length email) && contains email normalized)
        || has_part normalized leet (local_part email))

-- The name, or one of its parts, where there is a name.
abbrev pub has_name : Letters → Text → Text → Text → Bool
has_name letters normalized leet given =
    let name = normalize_text letters given in
    not (length given == 0)
    && (has_part normalized leet name || any (has_part normalized leet) (split_name name))

unfoldable pub contains_personal_data : Letters → Text → Text → PasswordValidationContext → Bool
unfolding normalize_text contains split_name local_part
contains_personal_data letters normalized leet context =
    has_email letters normalized leet context.email || has_name letters normalized leet context.name

abbrev pub length_errors : Text → List PasswordError
length_errors s =
    if ltb (length s) min_length
    then too_short ∷ []
    else if ltb max_length (length s)
    then too_long ∷ []
    else []

abbrev pub personal_errors : Letters → Text → Option PasswordValidationContext → List PasswordError
personal_errors letters s none = []
personal_errors letters s (some context) =
    when
      (contains_personal_data letters (normalize_text letters s) (normalize_with_leet letters s)
        context)
      personal_data

unfoldable pub password_errors :
    Letters → Text → Option PasswordValidationContext → List PasswordError
unfolding has_outer_whitespace contains_control_characters is_upper is_lower is_digit
    has_excessive_repetitions contains_personal_data normalize_text normalize_with_leet contains
password_errors letters s context =
    when (has_outer_whitespace s) outer_whitespace
    ++ (when (contains_control_characters s) control_characters
        ++ (length_errors s
            ++ (when (not (any is_upper s)) missing_uppercase
                ++ (when (not (any is_lower s)) missing_lowercase
                    ++ (when (not (any is_digit s)) missing_number
                        ++ (when (not (any is_special s)) missing_special
                            ++ (when
                                  (has_excessive_repetitions letters s
                                    max_consecutive_identical_chars)
                                  excessive_repetition
                                ++ (when (any (has_word letters s) forbidden_words)
                                      common_weak_pattern
                                    ++ personal_errors letters s context))))))))

abbrev pub is_empty_list : List PasswordError → Bool
is_empty_list [] = true
is_empty_list (_ ∷ _) = false

unfoldable pub validate :
    Letters → Value → Option PasswordValidationContext → PasswordValidationResult
unfolding password_errors
validate letters (string s) context = record {
  valid = is_empty_list (password_errors letters s context);
  errors = password_errors letters s context;
}
validate letters _ context = record { valid = false; errors = not_a_string ∷ [] }

unfoldable pub assert_valid :
    Letters → Value → Option PasswordValidationContext → Result (List PasswordError) (Unit {0})
unfolding validate
assert_valid letters password context =
    let result = validate letters password context in
    if result.valid then ok tt else err result.errors
