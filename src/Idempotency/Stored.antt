-- ===== src/Idempotency/Stored.antt =====
-- The record that a request leaves (src/idempotency/idempotency.interceptor.ts).
use facturify.Base.{
  ℕ, ◌+◌, ◌≤◌, ◌<◌, ◌≡◌, refl, sym, ap, ◌∙◌, subst, true, false, some, arith, inl, inr,
}
use facturify.Base.Result.{Result, ok, err, ok_inj}
use facturify.Js.Text.{Text, text_eq}
use facturify.Js.Text.Laws.{text_eq_refl}
use facturify.Idempotency.Table.{
  completed, IdempotencyRecord, Tables, TableLaws, new_record, completed_record,
}
use facturify.Idempotency.Records.{
  IdempotencyError, lifetime_ms, answer_existing, begin, complete, Response, Handler, handle,
  after_begin, handler_error,
}
use facturify.Idempotency.Requests.{begin-cases, answers, answer_existing-replayed}

module _ (T : Tables) (L : TableLaws T) (sha256 serialize : Text → Text) where
  open T use {Db, create, find_unique, delete, update, delete_in_progress}

  -- The record that a request leaves whose handler ran.
  pub record Stored (company key fingerprint : Text) (until : ℕ)
      (response : Response T sha256 serialize) (db : Db) : Type 0 where
    pub r : IdempotencyRecord
    pub found : find_unique company (sha256 key) db ≡ some r
    pub lives : until ≤ r.expires_at
    pub same_request : r.fingerprint ≡ fingerprint
    pub done : r.status ≡ completed
    pub status : r.response_status ≡ some response.status
    pub body : Text
    pub sent : response.body ≡ some body
    pub kept : r.response_body ≡ some (serialize body)

  completed_by :
      (company key fingerprint : Text) (db' : Db) (response : Response T sha256 serialize)
      (until : ℕ) (handler : Handler T sha256 serialize) (id : Text) (db : Db) (expires_at : ℕ)
      → find_unique company (sha256 key) db ≡ some (new_record id fingerprint expires_at)
      → until ≤ expires_at
      → handle T sha256 serialize id handler db ≡ (ok response, db')
      → Stored company key fingerprint until response db'
  unfolding handle complete
  completed_by company key fingerprint db' response until (ok (status, body)) id db expires_at found
        lives ran =
      let r = completed_record (new_record id fingerprint expires_at) status (serialize body) in
      let stored =
        L.update_found company (sha256 key) status (serialize body) db
          (new_record id fingerprint expires_at) found in
      let same = ok_inj (ap (λ p. p.0) ran) in
      record {
        r = r;
        found = subst (λ d. find_unique company (sha256 key) d ≡ some r) (ap (λ p. p.1) ran) stored;
        lives = lives;
        same_request = refl;
        done = refl;
        status = ap (λ q. some q.status) same;
        body = body;
        sent = sym (ap (λ q. q.body) same);
        kept = refl;
      }
  completed_by company key fingerprint db' response until (err e) id db expires_at found lives ran =
      let no : Path (Result IdempotencyError (Response T sha256 serialize)) (err (handler_error e))
          (ok response) =
        ap (λ p. p.0) ran in
      cc

  pub handled :
      (clock : ℕ → ℕ) (company key fingerprint : Text) (handler : Handler T sha256 serialize)
      (db db' : Db) (response : Response T sha256 serialize) (start : ℕ)
      → ((n : ℕ) → start ≤ clock n)
      → response.replayed ≡ false
      → after_begin T sha256 serialize handler
          (begin T sha256 serialize 2 clock company key fingerprint db)
        ≡ (ok response, db')
      → Stored company key fingerprint (start + lifetime_ms) response db'
  unfolding after_begin
  handled clock company key fingerprint handler db db' response start h fresh ran =
      elim (begin-cases T L sha256 serialize clock company key fingerprint db start h) [
        | inr (r, same) ↦
            let yes =
              answer_existing-replayed T L sha256 serialize r fingerprint db db' handler response
                (rw same at ran) in
            let no : true ≡ false = sym yes ∙ fresh in cc
        | inl n ↦
            completed_by company key fingerprint db' response (start + lifetime_ms) handler n.id
              n.db n.expires_at n.found n.lives (rw n.same at ran)
      ]

  -- A second request meets the stored record.
  pub Stored-replay :
      (clock : ℕ → ℕ) (company key fingerprint : Text) (handler : Handler T sha256 serialize)
      (db : Db) (response : Response T sha256 serialize) (until : ℕ)
      → (s : Stored company key fingerprint until response db) → clock 1 < until
      → after_begin T sha256 serialize handler
          (begin T sha256 serialize 2 clock company key fingerprint db)
        ≡ (
          ok (record { status = response.status; body = some (serialize s.body); replayed = true }),
          db,
        )
  unfolding after_begin answer_existing
  Stored-replay clock company key fingerprint handler db response until s early =
      let r = s.r in
      let same : text_eq r.fingerprint fingerprint ≡ true =
        rw (s.same_request, text_eq_refl fingerprint) refl in
      rw
        (
          answers T L sha256 serialize clock company key fingerprint db r s.found
              (omega (arith, early, s.lives)),
          same,
          s.done,
          s.status,
          s.kept,
        )
        refl
