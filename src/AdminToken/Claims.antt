-- ===== src/AdminToken/Claims.antt =====
-- The claims of a token, and the constants of the policy (src/admin-token-policy).
use facturify.Base.{ℕ, ◌*◌, List, [], ◌∷◌}
use facturify.Js.Text.{Text, codes}
use facturify.Js.Integer.{ℤ}
use facturify.Js.Value.{Value}

pub data TokenErrorCode : Type 0 where
  token_invalid token_expired token_not_active token_scope_invalid : TokenErrorCode

-- The errors, by their messages.
pub data TokenError : Type 0 where
  bad_input bad_subject bad_role no_issuer no_audience bad_issued_at bad_duration : TokenError
  bad_payload unexpected_field prohibited_field missing_field bad_type other_issuer other_audience :
      TokenError
  no_integers expires_before_issue too_long not_active expired : TokenError

unfoldable pub error_code : TokenError → TokenErrorCode
error_code bad_role = token_scope_invalid
error_code bad_type = token_scope_invalid
error_code not_active = token_not_active
error_code expired = token_expired
error_code _ = token_invalid

abbrev pub max_ttl_seconds : ℕ
max_ttl_seconds = 8 * 60 * 60

abbrev pub max_clock_tolerance_seconds : ℕ
max_clock_tolerance_seconds = 60

abbrev pub admin_roles : List Text
admin_roles = codes "ADMIN" ∷ codes "SUPERADMIN" ∷ []

abbrev pub admin_token_type : Text
admin_token_type = codes "admin_access"

abbrev pub allowed_token_claim_keys : List Text
allowed_token_claim_keys =
    codes "sub"
    ∷ codes "role"
    ∷ codes "tokenType"
    ∷ codes "iss"
    ∷ codes "aud"
    ∷ codes "iat"
    ∷ codes "exp"
    ∷ []

abbrev pub prohibited_token_fields : List Text
prohibited_token_fields =
    codes "email"
    ∷ codes "name"
    ∷ codes "username"
    ∷ codes "company"
    ∷ codes "companyId"
    ∷ codes "password"
    ∷ codes "apiKey"
    ∷ codes "key"
    ∷ codes "secret"
    ∷ codes "ip"
    ∷ codes "clientIp"
    ∷ codes "userAgent"
    ∷ codes "credentials"
    ∷ codes "solUser"
    ∷ codes "solPassword"
    ∷ codes "certificate"
    ∷ codes "stack"
    ∷ codes "stackTrace"
    ∷ []

pub record AdminTokenClaims : Type 0 where
  pub sub : Text
  pub role : Text
  pub token_type : Text
  pub iss : Text
  pub aud : Text
  pub iat : ℤ
  pub exp : ℤ

pub record BuildAdminClaimsInput : Type 0 where
  pub sub : Value
  pub role : Value
  pub iss : Value
  pub aud : Value
  pub ttl_seconds : Value
  pub iat : Value

pub record ValidateTokenContext : Type 0 where
  pub expected_iss : Text
  pub expected_aud : Text
  pub clock_tolerance_seconds : Value
