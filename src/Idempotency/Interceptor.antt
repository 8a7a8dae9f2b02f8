-- ===== src/Idempotency/Interceptor.antt =====
-- The interceptor over two requests under one key (src/idempotency/idempotency.interceptor.ts).
use facturify.Base.{ℕ, ◌+◌, ◌≤◌, ◌<◌, ◌≡◌, sym, ap, ◌∙◌, true, false, some, Bool-cases, inl, inr}
use facturify.Base.Result.{Result, ok, err, Result-cases}
use facturify.Js.Text.{Text}
use facturify.Js.Value.{Value}
use facturify.Idempotency.Key.{validate_idempotency_key}
use facturify.Idempotency.Table.{Tables, TableLaws}
use facturify.Idempotency.Records.{
  IdempotencyError, lifetime_ms, Response, Handler, intercept, is_missing, no_company, bad_key,
}
use facturify.Idempotency.Requests.{intercept-key}
use facturify.Idempotency.Stored.{handled, Stored-replay}

module _ (T : Tables) (L : TableLaws T) (sha256 serialize : Text → Text) where
  open T use {Db, create, find_unique, delete, update, delete_in_progress}

  key_of :
      (clock : ℕ → ℕ) (company : Text) (header : Value) (fingerprint : Text)
      (handler : Handler T sha256 serialize) (db db' : Db) (response : Response T sha256 serialize)
      → intercept T sha256 serialize clock company header fingerprint handler db
        ≡ (ok response, db')
      → (key : Text) × (is_missing T sha256 serialize company ≡ false)
        × (validate_idempotency_key header ≡ ok key)
  unfolding intercept
  key_of clock company header fingerprint handler db db' response h =
      elim (Bool-cases (is_missing T sha256 serialize company)) [
        | inl missing ↦
            let no : Path (Result IdempotencyError (Response T sha256 serialize)) (err no_company)
                (ok response) =
              ap (λ p. p.0) (rw missing at h) in
            cc
        | inr there ↦ elim (Result-cases (validate_idempotency_key header)) [
          | inl (key, valid) ↦ (key, there, valid)
          | inr (e, bad) ↦
              let no : Path (Result IdempotencyError (Response T sha256 serialize))
                  (err (bad_key e)) (ok response) =
                ap (λ p. p.0) (rw (there, bad) at h) in
              cc
        ]
      ]

  -- A request takes effect once: if the handler of a first request ran and its response was sent, then
  -- a second request of the same company, key and fingerprint, within 24 hours of the time from which
  -- the first one ran, gets the same status and the stored body, marked as replayed, whatever its own
  -- handler would do, and the database stays as it is. Assumed is a database that is up.
  pub intercept-replays :
      (clock clock' : ℕ → ℕ) (start : ℕ) (company : Text) (header : Value) (fingerprint : Text)
      (handler handler' : Handler T sha256 serialize) (db db' : Db)
      (response : Response T sha256 serialize)
      → ((n : ℕ) → start ≤ clock n)
      → clock' 1 < start + lifetime_ms
      → intercept T sha256 serialize clock company header fingerprint handler db
        ≡ (ok response, db')
      → response.replayed ≡ false
      → (body : Text) × (response.body ≡ some body)
        × (intercept T sha256 serialize clock' company header fingerprint handler' db' ≡ (
          ok (record { status = response.status; body = some (serialize body); replayed = true }),
          db',
        ))
  intercept-replays clock clock' start company header fingerprint handler handler' db db' response h
        early ran fresh =
      let (key, there, valid) =
        key_of clock company header fingerprint handler db db' response ran in
      let ran' =
        sym (
          intercept-key T L sha256 serialize clock company header fingerprint handler db key there
            valid)
        ∙ ran in
      let s =
        handled T L sha256 serialize clock company key fingerprint handler db db' response start h
          fresh ran' in
      (
        s.body,
        s.sent,
        intercept-key T L sha256 serialize clock' company header fingerprint handler' db' key there
              valid
            ∙ Stored-replay T L sha256 serialize clock' company key fingerprint handler' db'
                response (start + lifetime_ms) s early,
      )
