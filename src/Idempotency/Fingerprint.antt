-- ===== src/Idempotency/Fingerprint.antt =====
-- `generateFingerprint` (src/idempotency/idempotency.service.ts): the text of a request that is
-- hashed.
pub mod Laws
use facturify.Base.{
  ℕ, Bool, true, false, Option, none, some, [], ◌∷◌, ◌++◌, if◌then◌else◌, length, ◌==◌,
}
use facturify.Base.Result.{Result, ok, err, ◌>>=◌}
use facturify.Js.Text.{Text, trim}
use facturify.Js.Number.{Num}
use facturify.Js.Value.{Value, string}
use facturify.Idempotency.Path.{normalize_method, normalize_path}
use facturify.Idempotency.Json.{Json, CanonicalError, canonicalize_json}

-- What the platform does: SHA-256, the query with its parameters sorted, the digits of a number,
-- `toUpperCase` and `toLowerCase` outside ASCII.
pub record Platform : Type 0 where
  pub sha256 : Text → Text
  pub sorted_query : Text → Text
  pub show : Num → Text
  pub upper : Text → Text
  pub lower : Text → Text

pub record GenerateFingerprintInput : Type 0 where
  pub method : Value
  pub path : Value
  pub company_id : Value
  pub body : Json

pub data FingerprintError : Type 0 where
  no_input blank_company : FingerprintError
  bad_body : CanonicalError → FingerprintError

-- The company's identifier without white space around it.
unfoldable pub normalize_company : Value → Result FingerprintError Text
unfolding trim
normalize_company (string s) = if length (trim s) == 0 then err blank_company else ok (trim s)
normalize_company _ = err blank_company

unfoldable pub fingerprint_payload : Text → Text → Text → Text → Text
fingerprint_payload method path company body =
    method ++ (b'|' ∷ (path ++ (b'|' ∷ (company ++ (b'|' ∷ body)))))

-- The canonical body, whose errors are passed on under one message.
unfoldable pub canonical_body : Platform → Json → Result FingerprintError Text
unfolding canonicalize_json
canonical_body p body = elim (canonicalize_json p.show p.lower body) [
  | ok s ↦ ok s
  | err e ↦ err (bad_body e)
]

unfoldable pub generate_fingerprint :
    Platform → Option GenerateFingerprintInput → Result FingerprintError Text
unfolding normalize_company canonical_body fingerprint_payload normalize_method normalize_path
generate_fingerprint p none = err no_input
generate_fingerprint p (some given) = do
  company ← normalize_company given.company_id
  body ← canonical_body p given.body
  ok (
      p.sha256 (
        fingerprint_payload (normalize_method p.upper given.method)
          (normalize_path p.sorted_query given.path) company body))
