-- ===== src/Idempotency/BodyTests.antt =====
-- A body, its canonical text, and a request that is repeated with its body rearranged.
use facturify.Base.{◌≡◌, ◌≢◌, refl, true, false, some, arith}
use facturify.Base.Result.{ok, err}
use facturify.Js.Text.{
  Text, codes, text_eq, trim, trim_start, trim_end, trim_end_cons, is_alnum, is_digit, is_upper,
  is_lower, is_space, upper_unit, to_upper, includes, to_lower, lower_unit,
}
use facturify.Js.Number.{is_finite, of_ℕ}
use facturify.Js.Search.{has_prefix, contains}
use facturify.Js.Value.{string}
use facturify.Idempotency.Path.{
  collapse, add_leading, drop_trailing, normalize_pathname, before_mark, after_mark, normalize_path,
  normalize_method,
}
use facturify.Idempotency.Key.{is_key_unit, check_key_text, validate_idempotency_key}
use facturify.Idempotency.Records.{
  answer_existing, begin, complete, abort, handle, after_begin, Response,
}
use facturify.Idempotency.Json.Sort.{text_lt, insert_entry, sort_entries}
use facturify.Idempotency.Json.{
  Json, object, number, field, end, escape, quote, is_sensitive_key, join, in_turn, entry_text,
  canonicalize_json, canonicalize_items, entries, is_omitted,
}
use facturify.Idempotency.Json.Laws.{
  Rearranged, same, properties, kept, swapped, omitted, backwards, in_steps, canonicalize_json-same,
}
use facturify.Idempotency.Fingerprint.{
  Platform, normalize_company, canonical_body, fingerprint_payload, generate_fingerprint,
}
use facturify.Idempotency.Fingerprint.Laws.{SameRequest, is_plain, generate_fingerprint-inj}
use facturify.Idempotency.Endpoint.{
  HttpRequest, input_of, intercept_request, intercept_request-replays,
}
use facturify.Idempotency.Tests.{rows, laws, no_rows, at_hour}

opened : Unit {0}
unfolding text_eq is_alnum is_digit is_upper is_lower is_space is_key_unit check_key_text
    validate_idempotency_key answer_existing begin complete abort handle after_begin trim trim_start
    trim_end trim_end_cons to_upper upper_unit to_lower lower_unit includes has_prefix contains
    is_finite collapse add_leading drop_trailing normalize_pathname before_mark after_mark
    normalize_path normalize_method text_lt insert_entry sort_entries escape quote is_sensitive_key
    join in_turn entry_text canonicalize_json canonicalize_items entries normalize_company
    canonical_body fingerprint_payload generate_fingerprint intercept_request is_plain
opened = tt

abbrev platform : Platform
platform = record {
  sha256 = λ s. s;
  sorted_query = λ q. q;
  show = λ x. codes "7";
  upper = λ s. s;
  lower = λ s. s;
}

abbrev seven : Json
seven = number (of_ℕ 7)

abbrev body_a : Json
body_a = object (field (codes "b") seven (field (codes "a") seven end))

abbrev body_b : Json
body_b =
    object (field (codes "a") seven (field (codes "b") seven (field (codes "userToken") seven end)))

canonical : canonicalize_json platform.show platform.lower body_b ≡ ok (codes "{\"a\":7,\"b\":7}")
unfolding opened
canonical = refl

token_omitted : is_omitted platform.lower (codes "userToken") seven ≡ true
unfolding opened
token_omitted = refl

different : codes "b" ≢ codes "a"
different e = ground (arith, e)

rearranged : Rearranged platform.lower body_a body_b
rearranged =
    properties
      (in_steps (swapped different) (kept same (kept same (backwards (omitted token_omitted)))))

abbrev request_of : Text → Json → HttpRequest
request_of url body = record {
  company_id = codes "acme";
  idempotency_key = string (codes "invoice-2024-000001");
  method = codes "POST";
  original_url = url;
  url = url;
  body = body;
}

abbrev first_request : HttpRequest
first_request = request_of (codes "/v1//bills/") body_a

abbrev second_request : HttpRequest
second_request = request_of (codes "/v1/bills") body_b

same_request : SameRequest platform (input_of first_request) (input_of second_request)
unfolding opened
same_request = record {
  same_method = refl;
  same_path = refl;
  same_company = refl;
  same_body = rearranged;
}

abbrev response : Response rows (λ s. s) (λ s. s)
response = record { status = 201; body = some (codes "F001-1"); replayed = false }

first_run :
    intercept_request rows platform
      (λ s. s)
      (at_hour 0)
      first_request
      (ok (201, codes "F001-1"))
      no_rows
    ≡ (
      ok response,
      (intercept_request rows platform
          (λ s. s)
          (at_hour 0)
          first_request
          (ok (201, codes "F001-1"))
          no_rows).1,
    )
unfolding opened
first_run = refl

canonicalize_json-same_example :
    canonicalize_json platform.show platform.lower body_a
    ≡ canonicalize_json platform.show platform.lower body_b
canonicalize_json-same_example =
    canonicalize_json-same platform.lower platform.show body_a body_b rearranged

intercept_request-replays_example :
    (body : Text) × (some (codes "F001-1") ≡ some body)
    × (intercept_request rows platform
          (λ s. s)
          (at_hour 23)
          second_request
          (err (codes "not run"))
          (intercept_request rows platform
            (λ s. s)
            (at_hour 0)
            first_request
            (ok (201, codes "F001-1"))
            no_rows).1
        ≡ (
          ok (record { status = 201; body = some body; replayed = true }),
          (intercept_request rows platform
              (λ s. s)
              (at_hour 0)
              first_request
              (ok (201, codes "F001-1"))
              no_rows).1,
        ))
intercept_request-replays_example =
    intercept_request-replays rows platform (λ s. s) laws (at_hour 0) (at_hour 23) 0 first_request
      second_request (ok (201, codes "F001-1")) (err (codes "not run")) no_rows
      (intercept_request rows platform (λ s. s) (at_hour 0) first_request (ok (201, codes "F001-1"))
        no_rows).1
      response same_request refl refl (λ n. omega arith) (omega arith) first_run refl

company : normalize_company (string (codes "acme")) ≡ ok (codes "acme")
unfolding opened
company = refl

plain_method : is_plain (normalize_method platform.upper (string (codes "POST"))) ≡ true
unfolding opened
plain_method = refl

plain_path : is_plain (normalize_path platform.sorted_query (string (codes "/v1//bills/"))) ≡ true
unfolding opened
plain_path = refl

plain_path' : is_plain (normalize_path platform.sorted_query (string (codes "/v1/bills"))) ≡ true
unfolding opened
plain_path' = refl

plain_company : is_plain (codes "acme") ≡ true
unfolding opened
plain_company = refl

abbrev small_body : Text
small_body = codes "{\"a\":7,\"b\":7}"

body_text_a : canonical_body platform body_a ≡ ok small_body
unfolding opened
body_text_a = refl

body_text_b : canonical_body platform body_b ≡ ok small_body
unfolding opened
body_text_b = refl

abbrev digest : Text
digest = codes "POST|/v1/bills|acme|{\"a\":7,\"b\":7}"

digest_a : generate_fingerprint platform (some (input_of first_request)) ≡ ok digest
unfolding opened
digest_a = refl

digest_b : generate_fingerprint platform (some (input_of second_request)) ≡ ok digest
unfolding opened
digest_b = refl

generate_fingerprint-inj_example :
    (normalize_method platform.upper (string (codes "POST"))
      ≡ normalize_method platform.upper (string (codes "POST")))
    × (normalize_path platform.sorted_query (string (codes "/v1//bills/"))
        ≡ normalize_path platform.sorted_query (string (codes "/v1/bills")))
    × (codes "acme" ≡ codes "acme")
    × (small_body ≡ small_body)
generate_fingerprint-inj_example =
    generate_fingerprint-inj platform (input_of first_request) (input_of second_request) digest
      (codes "acme") (codes "acme") small_body small_body company company body_text_a body_text_b
      (λ e. e) plain_method plain_method plain_path plain_path' plain_company plain_company digest_a
      digest_b
