-- ===== src/AdminToken/Service.antt =====
-- `AdminTokenPolicyService` (src/admin-token-policy/admin-token-policy.service.ts). The clock, in whole
-- seconds, `Number` on values that are no numbers, and letters outside ASCII are arguments.
use facturify.Base.{
  ℕ, ◌+◌, Bool, true, false, not, ◌&&◌, ◌||◌, Option, none, some, [], ◌∷◌, any, min, ltb,
  if◌then◌else◌,
}
use facturify.Base.Result.{Result, ok, err, ◌>>=◌, ◌>>◌, throw_if}
use facturify.Js.Text.{Text, codes, text_eq, includes, trim, to_lower}
use facturify.Js.Number.{Num, is_finite, lt_num, floor_ℕ, of_ℕ}
use facturify.Js.Integer.{ℤ, pos, negsuc, integer_of, plus_ℕ, lt_ℤ, le_ℤ}
use facturify.Js.Value.{Value, undefined, number, string, is_nullish}
use facturify.Js.Map.{Map, get}
use facturify.AdminToken.Uuid.{is_valid_uuid}
use facturify.AdminToken.Claims.{
  TokenError, bad_input, bad_subject, bad_role, no_issuer, no_audience, bad_issued_at, bad_duration,
  bad_payload, unexpected_field, prohibited_field, missing_field, bad_type, other_issuer,
  other_audience, no_integers, expires_before_issue, too_long, not_active, expired, max_ttl_seconds,
  max_clock_tolerance_seconds, admin_roles, admin_token_type, allowed_token_claim_keys,
  prohibited_token_fields, AdminTokenClaims, BuildAdminClaimsInput, ValidateTokenContext,
}

-- `isValidUuid`, with the text that it finds.
unfoldable pub uuid_of : Value → Option Text
unfolding is_valid_uuid
uuid_of (string s) = if is_valid_uuid s then some s else none
uuid_of _ = none

-- `isValidAdminRole`, with the role.
unfoldable pub admin_role_of : Value → Option Text
unfolding includes
admin_role_of (string s) = if includes admin_roles s then some s else none
admin_role_of _ = none

-- A text that is not blank, without white space around it.
unfoldable pub name_of : Value → Option Text
unfolding trim
name_of (string s) = elim (trim s) [ [] ↦ none | c ∷ t ↦ some (c ∷ t) ]
name_of _ = none

abbrev pub or_throw {ℓ} : {A : Type ℓ} → TokenError → Option A → Result TokenError A
or_throw e none = err e
or_throw e (some a) = ok a

-- `input.iat !== undefined ? input.iat : nowSeconds`, which must be at least 0.
unfoldable pub issued_at : ℕ → Value → Option ℕ
unfolding integer_of
issued_at now undefined = some now
issued_at now v = elim (integer_of v) [
  | some (pos n) ↦ some n
  | some (negsuc _) ↦ none
  | none ↦ none
]

-- The time to live, above 0 and at most 8 hours.
unfoldable pub time_to_live : Value → Option ℕ
unfolding integer_of
time_to_live undefined = some max_ttl_seconds
time_to_live v = elim (integer_of v) [
  | some (pos n) ↦ if ltb 0 n && ltb n (max_ttl_seconds + 1) then some n else none
  | some (negsuc _) ↦ none
  | none ↦ none
]

unfoldable pub build_claims :
    (Text → Text) → ℕ → Option BuildAdminClaimsInput → Result TokenError AdminTokenClaims
unfolding uuid_of admin_role_of name_of issued_at time_to_live to_lower
build_claims wide now none = err bad_input
build_claims wide now (some given) = do
  sub ← or_throw bad_subject (uuid_of given.sub)
  role ← or_throw bad_role (admin_role_of given.role)
  iss ← or_throw no_issuer (name_of given.iss)
  aud ← or_throw no_audience (name_of given.aud)
  iat ← or_throw bad_issued_at (issued_at now given.iat)
  ttl ← or_throw bad_duration (time_to_live given.ttl_seconds)
  ok (record {
    sub = to_lower wide sub;
    role = role;
    token_type = admin_token_type;
    iss = iss;
    aud = aud;
    iat = pos iat;
    exp = pos (iat + ttl);
  })

abbrev pub is_empty_text : Value → Bool
is_empty_text (string []) = true
is_empty_text _ = false

-- `Number`, which keeps a number.
abbrev pub number_of : (Value → Num) → Value → Num
number_of to_number (number x) = x
number_of to_number v = to_number v

-- `normalizeClockTolerance`
unfoldable pub normalize_clock_tolerance : (Value → Num) → Value → ℕ
unfolding is_nullish is_finite lt_num floor_ℕ
normalize_clock_tolerance to_number v =
    let parsed = number_of to_number v in
    if is_nullish v || is_empty_text v || not (is_finite parsed) || lt_num parsed (of_ℕ 0)
    then 0
    else min (floor_ℕ parsed) max_clock_tolerance_seconds

-- The value of a property, which is undefined where there is none.
unfoldable pub value_of : Map Value → Text → Value
unfolding get
value_of claims key = elim (get key claims) [ some v ↦ v | none ↦ undefined ]

abbrev is_undefined : Value → Bool
is_undefined undefined = true
is_undefined _ = false

-- `v === s`
unfoldable pub equals_text : Text → Value → Bool
unfolding text_eq
equals_text s (string t) = text_eq t s
equals_text s _ = false

-- The tests on the properties that are there.
unfoldable pub check_fields : Map Value → Result TokenError (Unit {0})
unfolding includes value_of is_nullish
check_fields claims = do
  throw_if (any (λ e. not (includes allowed_token_claim_keys e.0)) claims) unexpected_field
  throw_if (any (λ k. not (is_undefined (value_of claims k))) prohibited_token_fields)
      prohibited_field
  throw_if (any (λ k. is_nullish (value_of claims k)) allowed_token_claim_keys) missing_field
  ok tt

-- The tests on the times. Over whole numbers `a - b > k` is `b + k < a`.
unfoldable pub check_times : ℕ → ℕ → ℤ → ℤ → Result TokenError (Unit {0})
unfolding lt_ℤ le_ℤ plus_ℕ
check_times now tolerance iat exp = do
  throw_if (le_ℤ exp iat) expires_before_issue
  throw_if (lt_ℤ (plus_ℕ iat max_ttl_seconds) exp) too_long
  throw_if (lt_ℤ (pos (now + tolerance)) iat) not_active
  throw_if (le_ℤ (plus_ℕ exp tolerance) (pos now)) expired
  ok tt

-- A payload that is not an object of properties, as an array, is `none`.
unfoldable pub validate_claims :
    (Text → Text)
    → (Value → Num)
    → ℕ
    → Option (Map Value)
    → ValidateTokenContext
    → Result TokenError AdminTokenClaims
unfolding check_fields uuid_of admin_role_of equals_text value_of integer_of
    normalize_clock_tolerance check_times to_lower
validate_claims wide to_number now none context = err bad_payload
validate_claims wide to_number now (some claims) context = do
  done ← check_fields claims
  sub ← or_throw bad_subject (uuid_of (value_of claims (codes "sub")))
  role ← or_throw bad_role (admin_role_of (value_of claims (codes "role")))
  throw_if (not (equals_text admin_token_type (value_of claims (codes "tokenType")))) bad_type
  throw_if (not (equals_text context.expected_iss (value_of claims (codes "iss")))) other_issuer
  throw_if (not (equals_text context.expected_aud (value_of claims (codes "aud")))) other_audience
  iat ← or_throw no_integers (integer_of (value_of claims (codes "iat")))
  exp ← or_throw no_integers (integer_of (value_of claims (codes "exp")))
  done' ←
      check_times now (normalize_clock_tolerance to_number context.clock_tolerance_seconds) iat exp
  ok (record {
    sub = to_lower wide sub;
    role = role;
    token_type = admin_token_type;
    iss = context.expected_iss;
    aud = context.expected_aud;
    iat = iat;
    exp = exp;
  })
