-- ===== src/Idempotency/Records.antt =====
-- `IdempotencyPersistenceService` and `IdempotencyInterceptor` (src/idempotency), whose calls of the
-- database run one after the other. SHA-256, the serialization of a body to JSON, the fingerprint of
-- a request and the handler are arguments.
use facturify.Base.{
  ℕ, zero, suc, ◌+◌, ◌*◌, Bool, true, false, not, Option, none, some, leb, if◌then◌else◌, [], ◌∷◌,
}
use facturify.Base.Result.{Result, ok, err}
use facturify.Js.Text.{Text, text_eq}
use facturify.Js.Value.{Value}
use facturify.Idempotency.Key.{KeyError, validate_idempotency_key}
use facturify.Idempotency.Table.{
  IdempotencyStatus, in_progress, completed, IdempotencyRecord, created, unique_conflict,
  database_error, Tables,
}

pub data IdempotencyError : Type 0 where
  being_initialized different_request already_in_progress database no_company out_of_rounds :
      IdempotencyError
  bad_key : KeyError → IdempotencyError
  handler_error : Text → IdempotencyError

pub data BeginIdempotencyResult : Type 0 where
  new : Text → BeginIdempotencyResult
  replay : ℕ → Option Text → BeginIdempotencyResult

-- `24 * 60 * 60 * 1000`
abbrev pub lifetime_ms : ℕ
lifetime_ms = 24 * 60 * 60 * 1000

abbrev pub or_200 : Option ℕ → ℕ
or_200 none = 200
or_200 (some s) = s

abbrev pub is_in_progress : IdempotencyStatus → Bool
is_in_progress in_progress = true
is_in_progress completed = false

module _ (T : Tables) (sha256 serialize : Text → Text) where
  open T use {Db, create, find_unique, delete, update, delete_in_progress}

  -- The answer for a record that has not expired.
  unfoldable pub answer_existing :
      IdempotencyRecord → Text → Db → Result IdempotencyError BeginIdempotencyResult × Db
  unfolding text_eq
  answer_existing existing fingerprint db =
      if not (text_eq existing.fingerprint fingerprint)
      then (err different_request, db)
      else if is_in_progress existing.status
      then (err already_in_progress, db)
      else (ok (replay (or_200 existing.response_status) existing.response_body), db)

  -- `begin`, which calls itself after it has deleted an expired record. The clock gives the time of
  -- each reading.
  unfoldable pub begin :
      ℕ → (ℕ → ℕ) → Text → Text → Text → Db → Result IdempotencyError BeginIdempotencyResult × Db
  unfolding answer_existing
  begin zero clock company key fingerprint db = (err out_of_rounds, db)
  begin (suc rounds) clock company key fingerprint db =
      elim (create company (sha256 key) fingerprint (clock 0 + lifetime_ms) db) [
        | created id db' ↦ (ok (new id), db')
        | database_error ↦ (err database, db)
        | unique_conflict ↦ elim (find_unique company (sha256 key) db) [
          | none ↦ (err being_initialized, db)
          | some existing ↦
              let again =
                begin rounds (λ n. clock (n + 2)) company key fingerprint (delete existing.id db) in
              if leb existing.expires_at (clock 1)
              then again
              else answer_existing existing fingerprint db
        ]
      ]

  unfoldable pub complete : Text → ℕ → Text → Db → Db
  complete record_id response_status response_body db =
      update record_id response_status (serialize response_body) db

  unfoldable pub abort : Text → Db → Db
  abort record_id db = delete_in_progress record_id db

  -- What a client gets: the status and the body, and whether the header Idempotency-Replayed is set.
  pub record Response : Type 0 where
    pub status : ℕ
    pub body : Option Text
    pub replayed : Bool

  -- What a handler does: the response's status and its body, or an error.
  abbrev pub Handler : Type 0
  Handler = Result Text (ℕ × Text)

  unfoldable pub handle : Text → Handler → Db → Result IdempotencyError Response × Db
  unfolding complete abort
  handle record_id (ok (status, body)) db = (
    ok (record { status = status; body = some body; replayed = false }),
    complete record_id status body db,
  )
  handle record_id (err e) db = (err (handler_error e), abort record_id db)

  unfoldable pub after_begin :
      Handler
      → Result IdempotencyError BeginIdempotencyResult × Db
      → Result IdempotencyError Response × Db
  unfolding handle
  after_begin handler (err e, db) = (err e, db)
  after_begin handler (ok (replay status body), db) =
      (ok (record { status = status; body = body; replayed = true }), db)
  after_begin handler (ok (new id), db) = handle id handler db

  -- `if (!companyId)`, where a request without a company has the empty text.
  abbrev pub is_missing : Text → Bool
  is_missing [] = true
  is_missing (_ ∷ _) = false

  -- The handler runs only where `begin` returned a new record.
  unfoldable pub intercept :
      (ℕ → ℕ) → Text → Value → Text → Handler → Db → Result IdempotencyError Response × Db
  unfolding validate_idempotency_key begin after_begin
  intercept clock company header fingerprint handler db =
      if is_missing company then (err no_company, db) else elim (validate_idempotency_key header) [
        | err e ↦ (err (bad_key e), db)
        | ok key ↦ after_begin handler (begin 2 clock company key fingerprint db)
      ]
