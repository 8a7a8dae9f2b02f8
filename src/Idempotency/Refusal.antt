-- ===== src/Idempotency/Refusal.antt =====
-- Requests that the interceptor refuses, and those that it lets try again
-- (src/idempotency/idempotency.interceptor.ts).
use facturify.Base.{
  ℕ, ◌<◌, ◌≡◌, ◌≢◌, refl, sym, ap, ◌∙◌, subst, true, false, none, some, arith, Bool-cases, inl, inr,
}
use facturify.Base.Result.{ok, err, err_inj}
use facturify.Js.Text.{Text, text_eq}
use facturify.Js.Text.Laws.{text_eq_of_distinct, text_eq_refl}
use facturify.Js.Value.{Value}
use facturify.Idempotency.Key.{validate_idempotency_key}
use facturify.Idempotency.Table.{in_progress, IdempotencyRecord, Tables, TableLaws, new_record}
use facturify.Idempotency.Records.{
  IdempotencyError, different_request, already_in_progress, is_in_progress, answer_existing,
  complete, abort, Handler, handle, after_begin, intercept, is_missing, handler_error,
}
use facturify.Idempotency.Replay.{begin-free}
use facturify.Idempotency.Requests.{begin-cases, answers, intercept-key}

module _ (T : Tables) (L : TableLaws T) (sha256 serialize : Text → Text) where
  open T use {Db, find_unique}

  -- Of two requests under one key the later one, in the lifetime of the first one's record, is refused
  -- while the first is in progress, and refused too if its fingerprint differs; its handler does
  -- not run, and the database stays as it is. Assumed is a database that is up.
  pub intercept-conflict :
      (clock : ℕ → ℕ) (company : Text) (header : Value) (key fingerprint : Text)
      (handler : Handler T sha256 serialize) (db : Db) (r : IdempotencyRecord)
      → is_missing T sha256 serialize company ≡ false
      → validate_idempotency_key header ≡ ok key
      → find_unique company (sha256 key) db ≡ some r
      → clock 1 < r.expires_at
      → (r.fingerprint ≢ fingerprint
          → intercept T sha256 serialize clock company header fingerprint handler db
            ≡ (err different_request, db))
        × (r.fingerprint ≡ fingerprint
            → r.status ≡ in_progress
            → intercept T sha256 serialize clock company header fingerprint handler db
              ≡ (err already_in_progress, db))
  unfolding after_begin answer_existing
  intercept-conflict clock company header key fingerprint handler db r there valid found live =
      let first =
        intercept-key T L sha256 serialize clock company header fingerprint handler db key there
          valid in
      let step = answers T L sha256 serialize clock company key fingerprint db r found live in
      (
        (λ different.
            let off : text_eq r.fingerprint fingerprint ≡ false =
              text_eq_of_distinct r.fingerprint fingerprint different in
            first ∙ rw (step, off) refl),
        λ same busy.
            let on : text_eq r.fingerprint fingerprint ≡ true =
              rw (same, text_eq_refl fingerprint) refl in
            first ∙ rw (step, on, busy) refl,
      )

  answer_existing-refuses :
      (r : IdempotencyRecord) (fingerprint cause : Text) (db db' : Db)
      (handler : Handler T sha256 serialize)
      → after_begin T sha256 serialize handler (answer_existing T sha256 serialize r fingerprint db)
        ≢ (err (handler_error cause), db')
  unfolding answer_existing after_begin
  answer_existing-refuses r fingerprint cause db db' handler h =
      elim (Bool-cases (text_eq r.fingerprint fingerprint)) [
        | inl same ↦ elim (Bool-cases (is_in_progress r.status)) [
          | inl busy ↦
              let no : Path IdempotencyError already_in_progress (handler_error cause) =
                err_inj (ap (λ p. p.0) (rw (same, busy) at h)) in
              cc
          | inr done ↦ let e = ap (λ p. p.0) (rw (same, done) at h) in cc
        ]
        | inr other ↦
            let no : Path IdempotencyError different_request (handler_error cause) =
              err_inj (ap (λ p. p.0) (rw other at h)) in
            cc
      ]

  aborted :
      (company key fingerprint cause : Text) (handler : Handler T sha256 serialize) (id : Text)
      (db db' : Db) (expires_at : ℕ)
      → find_unique company (sha256 key) db ≡ some (new_record id fingerprint expires_at)
      → handle T sha256 serialize id handler db ≡ (err (handler_error cause), db')
      → find_unique company (sha256 key) db' ≡ none
  unfolding handle abort
  aborted company key fingerprint cause (ok (status, body)) id db db' expires_at found ran =
      let e = ap (λ p. p.0) ran in cc
  aborted company key fingerprint cause (err e) id db db' expires_at found ran =
      subst (λ d. find_unique company (sha256 key) d ≡ none) (ap (λ p. p.1) ran)
        (L.delete_in_progress_found company (sha256 key) db (new_record id fingerprint expires_at)
          found refl)

  -- A request that failed can be tried again: if the handler of a first request threw, then a later
  -- request of the same company and key, whenever and with whatever fingerprint, runs its handler, and
  -- a response of this is sent as new. Assumed is a database that is up.
  pub intercept-retries :
      (clock clock' : ℕ → ℕ) (company : Text) (header : Value)
      (key fingerprint fingerprint' cause : Text) (handler : Handler T sha256 serialize)
      (db db' : Db) (status : ℕ) (body : Text)
      → is_missing T sha256 serialize company ≡ false
      → validate_idempotency_key header ≡ ok key
      → intercept T sha256 serialize clock company header fingerprint handler db
        ≡ (err (handler_error cause), db')
      → (db'' : Db) × (intercept T sha256 serialize clock' company header fingerprint'
            (ok (status, body))
            db'
          ≡ (ok (record { status = status; body = some body; replayed = false }), db''))
  unfolding after_begin handle
  intercept-retries clock clock' company header key fingerprint fingerprint' cause handler db db'
        status body there valid ran =
      let ran' =
        sym (
          intercept-key T L sha256 serialize clock company header fingerprint handler db key there
            valid)
        ∙ ran in
      let next =
        intercept-key T L sha256 serialize clock' company header fingerprint' (ok (status, body))
          db' key there valid in
      elim (begin-cases T L sha256 serialize clock company key fingerprint db 0
        (λ n. omega arith)) [
          | inr (r, same) ↦
              absurd (answer_existing-refuses r fingerprint cause db db' handler (rw same at ran'))
          | inl n ↦
              let free =
                aborted company key fingerprint cause handler n.id n.db db' n.expires_at n.found
                  (rw n.same at ran') in
              let (id, db₁, again, _) =
                begin-free T L sha256 serialize 1 clock' company key fingerprint' db' free in
              (complete T sha256 serialize id status body db₁, next ∙ rw again refl)
        ]
