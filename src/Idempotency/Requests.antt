-- ===== src/Idempotency/Requests.antt =====
-- The two ways in which `begin` ends (src/idempotency/idempotency-persistence.service.ts).
use facturify.Base.{
  ℕ, ◌+◌, ◌≤◌, ◌<◌, ◌≡◌, ◌⊎◌, refl, sym, ap, true, false, some, leb, arith, Bool-cases,
  Option-cases, inl, inr,
}
use facturify.Base.Result.{Result, ok, err, ok_inj}
use facturify.Js.Text.{Text, text_eq}
use facturify.Js.Value.{Value}
use facturify.Idempotency.Key.{validate_idempotency_key}
use facturify.Idempotency.Table.{IdempotencyRecord, Tables, TableLaws, new_record}
use facturify.Idempotency.Records.{
  IdempotencyError, different_request, already_in_progress, BeginIdempotencyResult, new,
  lifetime_ms, is_in_progress, answer_existing, begin, Response, Handler, after_begin, intercept,
  is_missing,
}
use facturify.Idempotency.Replay.{begin-Outcome, begin-found}

module _ (T : Tables) (L : TableLaws T) (sha256 serialize : Text → Text) where
  open T use {Db, create, find_unique, delete, update, delete_in_progress}

  -- A new record that lives until some time at least.
  pub record IsNew (company key fingerprint : Text) (until : ℕ)
      (result : Result IdempotencyError BeginIdempotencyResult × Db) : Type 0 where
    pub id : Text
    pub db : Db
    pub expires_at : ℕ
    pub same : result ≡ (ok (new id), db)
    pub found : find_unique company (sha256 key) db ≡ some (new_record id fingerprint expires_at)
    pub lives : until ≤ expires_at

  pub begin-cases :
      (clock : ℕ → ℕ) (company key fingerprint : Text) (db : Db) (start : ℕ)
      → ((n : ℕ) → start ≤ clock n)
      → IsNew company key fingerprint
          (start + lifetime_ms)
          (begin T sha256 serialize 2 clock company key fingerprint db)
        ⊎ ((r : IdempotencyRecord) × (begin T sha256 serialize 2 clock company key fingerprint db
              ≡ answer_existing T sha256 serialize r fingerprint db))
  begin-cases clock company key fingerprint db start h =
      let outcome = begin-Outcome T L sha256 serialize clock company key fingerprint db in
      elim (Option-cases (find_unique company (sha256 key) db)) [
        | inl free ↦
            let (id, db', same, found) = rw free at outcome in
            inl (record {
              id = id;
              db = db';
              expires_at = clock 0 + lifetime_ms;
              same = same;
              found = found;
              lives = omega (arith, h 0);
            })
        | inr (r, taken) ↦ elim (rw taken at outcome) [
          | inl (before, _) ↦
              let live : leb r.expires_at (clock 1) ≡ false = ground (arith, before) in
              inr (
                r,
                rw live at
                    (begin-found T L sha256 serialize 1 clock company key fingerprint db r taken),
              )
          | inr (_, id, db', same, found) ↦ inl (record {
            id = id;
            db = db';
            expires_at = clock 2 + lifetime_ms;
            same = same;
            found = found;
            lives = omega (arith, h 2);
          })
        ]
      ]

  pub answer_existing-replayed :
      (r : IdempotencyRecord) (fingerprint : Text) (db db' : Db)
      (handler : Handler T sha256 serialize) (response : Response T sha256 serialize)
      → after_begin T sha256 serialize handler (answer_existing T sha256 serialize r fingerprint db)
        ≡ (ok response, db')
      → response.replayed ≡ true
  unfolding answer_existing after_begin
  answer_existing-replayed r fingerprint db db' handler response h =
      elim (Bool-cases (text_eq r.fingerprint fingerprint)) [
        | inl same ↦ elim (Bool-cases (is_in_progress r.status)) [
          | inl busy ↦
              let no : Path (Result IdempotencyError (Response T sha256 serialize))
                  (err already_in_progress) (ok response) =
                ap (λ p. p.0) (rw (same, busy) at h) in
              cc
          | inr done ↦ sym (ap (λ q. q.replayed) (ok_inj (ap (λ p. p.0) (rw (same, done) at h))))
        ]
        | inr other ↦
            let no : Path (Result IdempotencyError (Response T sha256 serialize))
                (err different_request) (ok response) =
              ap (λ p. p.0) (rw other at h) in
            cc
      ]

  -- A live record of the same request that is completed, or in progress.
  pub answers :
      (clock : ℕ → ℕ) (company key fingerprint : Text) (db : Db) (r : IdempotencyRecord)
      → find_unique company (sha256 key) db ≡ some r
      → clock 1 < r.expires_at
      → begin T sha256 serialize 2 clock company key fingerprint db
        ≡ answer_existing T sha256 serialize r fingerprint db
  answers clock company key fingerprint db r found live =
      let off : leb r.expires_at (clock 1) ≡ false = ground (arith, live) in
      rw off at (begin-found T L sha256 serialize 1 clock company key fingerprint db r found)

  pub intercept-key :
      (clock : ℕ → ℕ) (company : Text) (header : Value) (fingerprint : Text)
      (handler : Handler T sha256 serialize) (db : Db) (key : Text)
      → is_missing T sha256 serialize company ≡ false
      → validate_idempotency_key header ≡ ok key
      → intercept T sha256 serialize clock company header fingerprint handler db
        ≡ after_begin T sha256 serialize handler
            (begin T sha256 serialize 2 clock company key fingerprint db)
  unfolding intercept
  intercept-key clock company header fingerprint handler db key h k = rw (h, k) refl
