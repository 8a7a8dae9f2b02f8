-- ===== src/AdminToken/Validate.antt =====
-- The claims that `validateClaims` accepts (src/admin-token-policy/admin-token-policy.service.ts).
use facturify.Base.{ℕ, ◌+◌, ◌≡◌, true, false, not, any}
use facturify.Js.Text.{Text, codes, includes}
use facturify.Js.Number.{Num}
use facturify.Js.Integer.{pos, plus_ℕ, lt_ℤ, le_ℤ}
use facturify.Js.Value.{Value, string}
use facturify.Js.Map.{Map}
use facturify.AdminToken.Claims.{
  max_ttl_seconds, max_clock_tolerance_seconds, admin_roles, admin_token_type,
  allowed_token_claim_keys, AdminTokenClaims, ValidateTokenContext,
}
use facturify.AdminToken.Uuid.{is_valid_uuid}
use facturify.AdminToken.Service.{value_of}

-- What is known of claims that were accepted at a time.
pub record IsAccepted (wide : Text → Text) (to_number : Value → Num) (now : ℕ) (fields : Map Value)
    (context : ValidateTokenContext) (c : AdminTokenClaims) : Type 0 where
  pub known_fields : any (λ e. not (includes allowed_token_claim_keys e.0)) fields ≡ false
  pub valid_sub : is_valid_uuid c.sub ≡ true
  pub valid_role : includes admin_roles c.role ≡ true
  pub same_type : value_of fields (codes "tokenType") ≡ string admin_token_type
  pub same_iss : value_of fields (codes "iss") ≡ string context.expected_iss
  pub same_aud : value_of fields (codes "aud") ≡ string context.expected_aud
  pub after_issue : lt_ℤ c.iat c.exp ≡ true
  pub within_limit : le_ℤ c.exp (plus_ℕ c.iat max_ttl_seconds) ≡ true
  pub active : le_ℤ c.iat (pos (now + max_clock_tolerance_seconds)) ≡ true
  pub not_expired : lt_ℤ (pos now) (plus_ℕ c.exp max_clock_tolerance_seconds) ≡ true
