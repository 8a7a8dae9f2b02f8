-- ===== src/Idempotency/Endpoint.antt =====
-- `IdempotencyInterceptor.intercept` from the request itself (src/idempotency/idempotency.interceptor.ts):
-- the key, the fingerprint, and what `begin` answers.
use facturify.Base.{
  ℕ, ◌+◌, ◌≤◌, ◌<◌, ◌≡◌, refl, sym, ap, ◌∙◌, true, false, some, [], ◌∷◌, if◌then◌else◌, Bool-cases,
  inl, inr,
}
use facturify.Base.Result.{Result, ok, err, Result-cases}
use facturify.Js.Text.{Text}
use facturify.Js.Value.{Value, string}
use facturify.Idempotency.Key.{validate_idempotency_key}
use facturify.Idempotency.Json.{Json}
use facturify.Idempotency.Fingerprint.{
  Platform, GenerateFingerprintInput, FingerprintError, generate_fingerprint,
}
use facturify.Idempotency.Fingerprint.Laws.{SameRequest, generate_fingerprint-same}
use facturify.Idempotency.Table.{Tables, TableLaws}
use facturify.Idempotency.Records.{
  IdempotencyError, no_company, bad_key, begin, after_begin, lifetime_ms, Response, Handler,
  is_missing, intercept,
}
use facturify.Idempotency.Interceptor.{intercept-replays}

pub record HttpRequest : Type 0 where
  pub company_id : Text
  pub idempotency_key : Value
  pub method : Text
  pub original_url : Text
  pub url : Text
  pub body : Json

-- Why a request was refused: by its fingerprint, or for what `intercept` refuses.
pub data RequestError : Type 0 where
  bad_request : FingerprintError → RequestError
  refused : IdempotencyError → RequestError

-- `request.originalUrl || request.url`
abbrev url_of : HttpRequest → Text
url_of r = elim r.original_url [ [] ↦ r.url | _ ∷ _ ↦ r.original_url ]

abbrev pub input_of : HttpRequest → GenerateFingerprintInput
input_of r = record {
  method = string r.method;
  path = string (url_of r);
  company_id = string r.company_id;
  body = r.body;
}

module _ (T : Tables) (p : Platform) (serialize : Text → Text) where
  open T use {Db, create, find_unique, delete, update, delete_in_progress}

  abbrev as_refused :
      Result IdempotencyError (Response T p.sha256 serialize) × Db
      → Result RequestError (Response T p.sha256 serialize) × Db
  as_refused (ok response, db) = (ok response, db)
  as_refused (err e, db) = (err (refused e), db)

  unfoldable pub intercept_request :
      (ℕ → ℕ)
      → HttpRequest
      → Handler T p.sha256 serialize
      → Db
      → Result RequestError (Response T p.sha256 serialize) × Db
  unfolding validate_idempotency_key generate_fingerprint begin after_begin
  intercept_request clock request handler db =
      if is_missing T p.sha256 serialize request.company_id
      then (err (refused no_company), db)
      else elim (validate_idempotency_key request.idempotency_key) [
        | err e ↦ (err (refused (bad_key e)), db)
        | ok key ↦ elim (generate_fingerprint p (some (input_of request))) [
          | err e ↦ (err (bad_request e), db)
          | ok fingerprint ↦ as_refused (
              after_begin T p.sha256 serialize handler
                (begin T p.sha256 serialize 2 clock request.company_id key fingerprint db))
        ]
      ]

  -- A request with a fingerprint is handled under it.
  with_fingerprint :
      (clock : ℕ → ℕ) (request : HttpRequest) (handler : Handler T p.sha256 serialize) (db : Db)
      (fingerprint : Text)
      → generate_fingerprint p (some (input_of request)) ≡ ok fingerprint
      → intercept_request clock request handler db
        ≡ as_refused (
            intercept T p.sha256 serialize clock request.company_id request.idempotency_key
              fingerprint handler db)
  unfolding intercept_request intercept
  with_fingerprint clock request handler db fingerprint h =
      elim (Bool-cases (is_missing T p.sha256 serialize request.company_id)) [
        | inl missing ↦ rw missing refl
        | inr there ↦ elim (Result-cases (validate_idempotency_key request.idempotency_key)) [
          | inl (key, valid) ↦ rw (there, valid, h) refl
          | inr (e, bad) ↦ rw (there, bad) refl
        ]
      ]

  no_response {ℓ} :
      {A : Type ℓ} (e : RequestError) (response : Response T p.sha256 serialize)
      → Path (Result RequestError (Response T p.sha256 serialize)) (err e) (ok response)
      → A
  no_response e response h = cc

  -- A request that got a response has a fingerprint.
  has_fingerprint :
      (clock : ℕ → ℕ) (request : HttpRequest) (handler : Handler T p.sha256 serialize) (db db' : Db)
      (response : Response T p.sha256 serialize)
      → intercept_request clock request handler db ≡ (ok response, db')
      → (fingerprint : Text) × (generate_fingerprint p (some (input_of request)) ≡ ok fingerprint)
  unfolding intercept_request
  has_fingerprint clock request handler db db' response h =
      elim (Result-cases (generate_fingerprint p (some (input_of request)))) [
        | inl (fingerprint, made) ↦ (fingerprint, made)
        | inr (e, bad) ↦ elim (Bool-cases (is_missing T p.sha256 serialize request.company_id)) [
          | inl missing ↦
              no_response (refused no_company) response (ap (λ r. r.0) (rw missing at h))
          | inr there ↦ elim (Result-cases (validate_idempotency_key request.idempotency_key)) [
            | inl (key, valid) ↦
                no_response (bad_request e) response (ap (λ r. r.0) (rw (there, valid, bad) at h))
            | inr (k, invalid) ↦
                no_response (refused (bad_key k)) response
                  (ap (λ r. r.0) (rw (there, invalid) at h))
          ]
        ]
      ]

  unrefused :
      (result : Result IdempotencyError (Response T p.sha256 serialize) × Db) (db' : Db)
      (response : Response T p.sha256 serialize)
      → as_refused result ≡ (ok response, db')
      → result ≡ (ok response, db')
  unrefused (ok r, db) db' response h = cc
  unrefused (err e, db) db' response h = no_response (refused e) response (ap (λ r. r.0) h)

  -- Two HTTP requests of one company under one key, whose bodies have their properties in any order and
  -- differ in properties that are sensitive or undefined, and whose methods and paths are normalized to
  -- the same, are one request: if the handler of the first ran and its response was sent, then the
  -- second, within 24 hours, gets the stored response, marked as replayed, and the database stays as it
  -- is. Assumed is a database that is up.
  pub intercept_request-replays :
      (L : TableLaws T) (clock clock' : ℕ → ℕ) (start : ℕ) (first second : HttpRequest)
      (handler handler' : Handler T p.sha256 serialize) (db db' : Db)
      (response : Response T p.sha256 serialize)
      → SameRequest p (input_of first) (input_of second)
      → first.company_id ≡ second.company_id
      → first.idempotency_key ≡ second.idempotency_key
      → ((n : ℕ) → start ≤ clock n)
      → clock' 1 < start + lifetime_ms
      → intercept_request clock first handler db ≡ (ok response, db')
      → response.replayed ≡ false
      → (body : Text) × (response.body ≡ some body)
        × (intercept_request clock' second handler' db' ≡ (
          ok (record { status = response.status; body = some (serialize body); replayed = true }),
          db',
        ))
  intercept_request-replays L clock clock' start first second handler handler' db db' response same
        company key h early ran fresh =
      let (fp, made) = has_fingerprint clock first handler db db' response ran in
      let made' =
        sym (generate_fingerprint-same p (input_of first) (input_of second) same) ∙ made in
      let ran' =
        unrefused
          (intercept T p.sha256 serialize clock first.company_id first.idempotency_key fp handler
            db)
          db' response (sym (with_fingerprint clock first handler db fp made) ∙ ran) in
      let (body, sent, replay) =
        intercept-replays T L p.sha256 serialize clock clock' start first.company_id
          first.idempotency_key fp handler handler' db db' response h early ran' fresh in
      let replay' : intercept T p.sha256 serialize clock' second.company_id second.idempotency_key
            fp handler' db'
          ≡ (
            ok (record { status = response.status; body = some (serialize body); replayed = true }),
            db',
          ) =
        rw (sym company, sym key) replay in
      (body, sent, with_fingerprint clock' second handler' db' fp made' ∙ ap as_refused replay')
