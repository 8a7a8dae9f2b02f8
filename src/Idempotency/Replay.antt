-- ===== src/Idempotency/Replay.antt =====
-- What a repeated request gets.
use facturify.Base.{
  ℕ, suc, ◌+◌, ◌≤◌, ◌<◌, ◌≡◌, ◌≢◌, ◌⊎◌, refl, sym, subst, ◌∙◌, true, Option, none, some, leb,
  if◌then◌else◌, arith, Bool-cases, Option-cases, inl, inr,
}
use facturify.Base.Result.{Result, ok, err}
use facturify.Js.Text.{Text, text_eq}
use facturify.Js.Text.Laws.{eq_of_text_eq, text_eq_refl}
use facturify.Idempotency.Table.{
  in_progress, completed, IdempotencyRecord, Tables, TableLaws, new_record,
}
use facturify.Idempotency.Records.{
  IdempotencyError, BeginIdempotencyResult, different_request, already_in_progress, new, replay,
  lifetime_ms, answer_existing, begin,
}

module _ (T : Tables) (L : TableLaws T) (sha256 serialize : Text → Text) where
  open T use {Db, create, find_unique, delete, update, delete_in_progress}

  -- The answer for a live record: an error for another request, an error while the first is in progress, and
  -- else the response that is stored, or 200 where no status is. The database stays as it is.
  pub record IsAnswer (r : IdempotencyRecord) (fingerprint : Text) (db : Db)
      (result : Result IdempotencyError BeginIdempotencyResult × Db) : Type 0 where
    pub other : r.fingerprint ≢ fingerprint → result ≡ (err different_request, db)
    pub early :
        r.fingerprint ≡ fingerprint
        → r.status ≡ in_progress
        → result ≡ (err already_in_progress, db)
    pub stored :
        (status : ℕ)
        → r.fingerprint ≡ fingerprint
        → r.status ≡ completed
        → r.response_status ≡ some status
        → result ≡ (ok (replay status r.response_body), db)
    pub no_status :
        r.fingerprint ≡ fingerprint
        → r.status ≡ completed
        → r.response_status ≡ none
        → result ≡ (ok (replay 200 r.response_body), db)

  answer_existing-IsAnswer :
      (r : IdempotencyRecord) (fingerprint : Text) (db : Db)
      → IsAnswer r fingerprint db (answer_existing T sha256 serialize r fingerprint db)
  unfolding answer_existing
  answer_existing-IsAnswer r fingerprint db =
      let equal : r.fingerprint ≡ fingerprint → text_eq r.fingerprint fingerprint ≡ true =
        λ same. rw same (text_eq_refl fingerprint) in
      record {
        other = λ apart. elim (Bool-cases (text_eq r.fingerprint fingerprint)) [
          | inl same ↦ absurd (apart (eq_of_text_eq r.fingerprint fingerprint same))
          | inr differs ↦ rw differs refl
        ];
        early = λ same status. rw (equal same, status) refl;
        stored = λ n same status sent. rw (equal same, status, sent) refl;
        no_status = λ same status unsent. rw (equal same, status, unsent) refl;
      }

  -- What `begin` does, by the record that the database has for the company and the key.
  abbrev pub Outcome :
      (ℕ → ℕ)
      → Text
      → Text
      → Text
      → Db
      → Option IdempotencyRecord
      → Result IdempotencyError BeginIdempotencyResult × Db
      → Type 0
  Outcome clock company key fingerprint db none result =
      (id : Text) × (db' : Db) × (result ≡ (ok (new id), db'))
      × (find_unique company (sha256 key) db'
          ≡ some (new_record id fingerprint (clock 0 + lifetime_ms)))
  Outcome clock company key fingerprint db (some r) result =
      ((clock 1 < r.expires_at) × IsAnswer r fingerprint db result)
      ⊎ ((r.expires_at ≤ clock 1)
          × (id : Text) × (db' : Db) × (result ≡ (ok (new id), db'))
          × (find_unique company (sha256 key) db'
              ≡ some (new_record id fingerprint (clock 2 + lifetime_ms))))

  pub begin-free :
      (rounds : ℕ) (clock : ℕ → ℕ) (company key fingerprint : Text) (db : Db)
      → find_unique company (sha256 key) db ≡ none
      → (id : Text) × (db' : Db) × (begin T sha256 serialize
            (suc rounds)
            clock
            company
            key
            fingerprint
            db
          ≡ (ok (new id), db'))
        × (find_unique company (sha256 key) db'
            ≡ some (new_record id fingerprint (clock 0 + lifetime_ms)))
  unfolding begin
  begin-free rounds clock company key fingerprint db h =
      let (id, db', made, found) =
        L.create_free company (sha256 key) fingerprint (clock 0 + lifetime_ms) db h in
      (id, db', rw (made, begin) refl, found)

  pub begin-found :
      (rounds : ℕ) (clock : ℕ → ℕ) (company key fingerprint : Text) (db : Db)
      (r : IdempotencyRecord)
      → find_unique company (sha256 key) db ≡ some r
      → begin T sha256 serialize (suc rounds) clock company key fingerprint db ≡ (
          if leb r.expires_at (clock 1)
          then begin T sha256 serialize rounds
              (λ n. clock (n + 2))
              company
              key
              fingerprint
              (delete r.id db)
          else answer_existing T sha256 serialize r fingerprint db)
  unfolding begin
  begin-found rounds clock company key fingerprint db r h =
      let taken = L.create_taken company (sha256 key) fingerprint (clock 0 + lifetime_ms) db r h in
      rw (taken, begin, h) refl

  found-Outcome :
      (clock : ℕ → ℕ) (company key fingerprint : Text) (db : Db) (r : IdempotencyRecord)
      → find_unique company (sha256 key) db ≡ some r
      → Outcome clock company key fingerprint db
          (some r)
          (begin T sha256 serialize 2 clock company key fingerprint db)
  found-Outcome clock company key fingerprint db r h =
      let step = begin-found 1 clock company key fingerprint db r h in
      elim (Bool-cases (leb r.expires_at (clock 1))) [
        | inl expired ↦
            let (id, db', made, found) =
              begin-free 0 (λ n. clock (n + 2)) company key fingerprint (delete r.id db)
                (L.delete_found company (sha256 key) db r h) in
            inr (ground (arith, expired), id, db', (rw expired at step) ∙ made, found)
        | inr live ↦ inl (
          ground (arith, live),
          subst (IsAnswer r fingerprint db) (sym (rw live at step))
              (answer_existing-IsAnswer r fingerprint db),
        )
      ]

  -- Two rounds of `begin` always give a result, over a database that is up: with no record of the key,
  -- or an expired one, a new record in progress takes its place; a live record gives an error
  -- for another fingerprint, an error while it is in progress, and else its response, and the database stays as it is.
  pub begin-Outcome :
      (clock : ℕ → ℕ) (company key fingerprint : Text) (db : Db)
      → Outcome clock company key fingerprint db
          (find_unique company (sha256 key) db)
          (begin T sha256 serialize 2 clock company key fingerprint db)
  begin-Outcome clock company key fingerprint db =
      elim (Option-cases (find_unique company (sha256 key) db)) [
        | inl free ↦ rw free (begin-free 1 clock company key fingerprint db free)
        | inr (r, found) ↦ rw found (found-Outcome clock company key fingerprint db r found)
      ]
