-- ===== src/AdminToken/Tests.antt =====
-- A token of an administrator.
use facturify.Base.{◌+◌, ◌≡◌, refl, true, some, ◌∷◌}
use facturify.Base.Result.{ok, err}
use facturify.Js.Text.{
  Text, codes, text_eq, includes, trim, trim_start, trim_end, trim_end_cons, is_space, is_digit,
  is_upper, lower_unit, to_lower,
}
use facturify.Js.Number.{Num, nan, of_ℕ, is_finite, lt_num, floor_ℕ}
use facturify.Js.Integer.{pos, integer_of, integer_of_num, plus_ℕ, lt_ℤ, le_ℤ}
use facturify.Js.Value.{Value, undefined, number, string, is_nullish}
use facturify.Js.Map.{get}
use facturify.AdminToken.Claims.{
  expired, unexpected_field, AdminTokenClaims, BuildAdminClaimsInput, ValidateTokenContext,
  admin_token_type,
}
use facturify.AdminToken.Uuid.{fits, fits_all, is_valid_uuid}
use facturify.AdminToken.Service.{
  uuid_of, admin_role_of, name_of, issued_at, time_to_live, normalize_clock_tolerance, value_of,
  equals_text, check_fields, check_times, validate_claims, build_claims,
}
use facturify.AdminToken.RoundTrip.{payload_of, validate_claims-build_claims}

opened : Unit {0}
unfolding text_eq includes trim trim_start trim_end trim_end_cons is_space is_digit is_upper
    lower_unit to_lower is_finite lt_num floor_ℕ integer_of integer_of_num plus_ℕ lt_ℤ le_ℤ
    is_nullish get fits fits_all is_valid_uuid uuid_of admin_role_of name_of issued_at time_to_live
    normalize_clock_tolerance value_of equals_text check_fields check_times validate_claims
    build_claims
opened = tt

abbrev wide : Text → Text
wide s = s

abbrev to_number : Value → Num
to_number v = nan

abbrev given : BuildAdminClaimsInput
given = record {
  sub = string (codes "3F2504E0-4F89-41D3-9A0C-0305E82C3301");
  role = string (codes "ADMIN");
  iss = string (codes " facturify-api ");
  aud = string (codes "facturify-admin");
  ttl_seconds = number (of_ℕ 3600);
  iat = undefined;
}

abbrev claims : AdminTokenClaims
claims = record {
  sub = codes "3f2504e0-4f89-41d3-9a0c-0305e82c3301";
  role = codes "ADMIN";
  token_type = admin_token_type;
  iss = codes "facturify-api";
  aud = codes "facturify-admin";
  iat = pos 1000000;
  exp = pos 1003600;
}

abbrev context : ValidateTokenContext
context = record {
  expected_iss = codes "facturify-api";
  expected_aud = codes "facturify-admin";
  clock_tolerance_seconds = number (of_ℕ 600);
}

built : build_claims wide 1000000 (some given) ≡ ok claims
unfolding opened
built = refl

-- The tolerance of ten minutes is cut off at one.
late : validate_claims wide to_number 1003660 (some (payload_of claims)) context ≡ err expired
unfolding opened
late = refl

with_email :
    validate_claims wide to_number 1000000
      (some ((codes "email", string (codes "a@b.pe")) ∷ payload_of claims))
      context
    ≡ err unexpected_field
unfolding opened
with_email = refl

in_time :
    le_ℤ (pos 1000000) (pos (999990 + normalize_clock_tolerance to_number (number (of_ℕ 600))))
    ≡ true
unfolding opened
in_time = refl

alive :
    lt_ℤ
      (pos 999990)
      (plus_ℕ (pos 1003600) (normalize_clock_tolerance to_number (number (of_ℕ 600))))
    ≡ true
unfolding opened
alive = refl

validate_claims-build_claims_example :
    validate_claims wide to_number 999990 (some (payload_of claims)) context ≡ ok claims
validate_claims-build_claims_example =
    validate_claims-build_claims wide to_number 1000000 999990 given claims context built refl refl
      in_time alive
