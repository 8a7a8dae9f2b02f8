-- ===== src/Idempotency/Table.antt =====
-- What the program uses of the table of idempotency records, through Prisma, a package outside the
-- repository; the columns and the unique key are those of prisma/schema.prisma.
use facturify.Base.{ℕ, ◌≡◌, Option, none, some}
use facturify.Js.Text.{Text}

pub data IdempotencyStatus : Type 0 where
  in_progress completed : IdempotencyStatus

pub record IdempotencyRecord : Type 0 where
  pub id : Text
  pub fingerprint : Text
  pub status : IdempotencyStatus
  pub response_status : Option ℕ
  pub response_body : Option Text
  pub expires_at : ℕ

-- The outcome of `create`: the new id, a violation of the unique key (P2002), or another error.
pub data Created (Db : Type 0) : Type 0 where
  created : Text → Db → Created Db
  unique_conflict database_error : Created Db

pub record Tables : Type 1 where
  pub Db : Type 0
  -- The company, the hash of the key, the fingerprint and the time of expiry.
  pub create : Text → Text → Text → ℕ → Db → Created Db
  -- By the unique key of the company and the hash.
  pub find_unique : Text → Text → Db → Option IdempotencyRecord
  -- By the id; `update` sets the status to COMPLETED, the response's status and its body.
  pub delete : Text → Db → Db
  pub update : Text → ℕ → Text → Db → Db
  -- `deleteMany` of what has the id and is IN_PROGRESS.
  pub delete_in_progress : Text → Db → Db

abbrev pub new_record : Text → Text → ℕ → IdempotencyRecord
new_record id fingerprint expires_at = record {
  id = id;
  fingerprint = fingerprint;
  status = in_progress;
  response_status = none;
  response_body = none;
  expires_at = expires_at;
}

abbrev pub completed_record : IdempotencyRecord → ℕ → Text → IdempotencyRecord
completed_record r status body = record {
  id = r.id;
  fingerprint = r.fingerprint;
  status = completed;
  response_status = some status;
  response_body = some body;
  expires_at = r.expires_at;
}

-- The documented behaviour of a database that is up, for companies that it has: the unique key admits one record for a company
-- and a hash, and a record that is found is changed or deleted by its id alone.
pub record TableLaws (T : Tables) : Type 0 where
  pub create_taken :
      (c h f : Text) (e : ℕ) (db : T.Db) (r : IdempotencyRecord)
      → T.find_unique c h db ≡ some r
      → T.create c h f e db ≡ unique_conflict
  pub create_free :
      (c h f : Text) (e : ℕ) (db : T.Db)
      → T.find_unique c h db ≡ none
      → (id : Text) × (db' : T.Db) × (T.create c h f e db ≡ created id db')
        × (T.find_unique c h db' ≡ some (new_record id f e))
  pub delete_found :
      (c h : Text) (db : T.Db) (r : IdempotencyRecord)
      → T.find_unique c h db ≡ some r
      → T.find_unique c h (T.delete r.id db) ≡ none
  pub update_found :
      (c h : Text) (status : ℕ) (body : Text) (db : T.Db) (r : IdempotencyRecord)
      → T.find_unique c h db ≡ some r
      → T.find_unique c h (T.update r.id status body db) ≡ some (completed_record r status body)
  pub delete_in_progress_found :
      (c h : Text) (db : T.Db) (r : IdempotencyRecord)
      → T.find_unique c h db ≡ some r
      → r.status ≡ in_progress
      → T.find_unique c h (T.delete_in_progress r.id db) ≡ none
