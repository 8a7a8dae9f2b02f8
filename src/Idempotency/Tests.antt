-- ===== src/Idempotency/Tests.antt =====
-- A table as a function, runs of the interceptor over it, and instances of the theorems.
use facturify.Base.{
  [], ℕ, ◌+◌, ◌*◌, ◌≤◌, ◌≡◌, ◌≢◌, ◌↔◌, refl, ◌∙◌, true, false, ◌&&◌, Option, none, some,
  if◌then◌else◌, arith, length, all, ◌++◌,
}
use facturify.Base.Result.{ok, err}
use facturify.Js.Text.{
  Text, codes, text_eq, trim, trim_start, trim_end, trim_end_cons, is_alnum, is_digit, is_upper,
  is_lower, is_space, upper_unit, to_upper,
}
use facturify.Js.Text.Laws.{text_eq_refl}
use facturify.Js.Value.{Value, string}
use facturify.Idempotency.Path.{
  collapse, add_leading, drop_trailing, normalize_pathname, before_mark, after_mark, normalize_path,
  normalize_method,
}
use facturify.Idempotency.Key.{
  is_key_unit, check_key_text, validate_idempotency_key, validate_idempotency_key_iff,
}
use facturify.Idempotency.Table.{
  in_progress, completed, IdempotencyRecord, Created, created, unique_conflict, Tables, TableLaws,
  new_record, completed_record,
}
use facturify.Idempotency.Records.{
  different_request, already_in_progress, handler_error, answer_existing, begin, complete, abort,
  handle, after_begin, intercept,
}
use facturify.Idempotency.Replay.{Outcome, begin-Outcome}
use facturify.Idempotency.Refusal.{intercept-conflict, intercept-retries}

abbrev pub Rows : Type 0
Rows = Text → Text → Option IdempotencyRecord

abbrev change :
    Text
    → (IdempotencyRecord → Option IdempotencyRecord)
    → Option IdempotencyRecord
    → Option IdempotencyRecord
change id f none = none
change id f (some r) = if text_eq r.id id then f r else some r

abbrev unless_completed : IdempotencyRecord → Option IdempotencyRecord
unless_completed r = elim r.status [ in_progress ↦ none | completed ↦ some r ]

abbrev insert : Text → Text → IdempotencyRecord → Rows → Rows
insert c h r db c' h' = if text_eq c c' && text_eq h h' then some r else db c' h'

abbrev create_in : Text → Text → IdempotencyRecord → Rows → Option IdempotencyRecord → Created Rows
create_in c h r db none = created r.id (insert c h r db)
create_in c h r db (some _) = unique_conflict

abbrev pub rows : Tables
rows = record {
  Db = Rows;
  create = λ c h f e db. create_in c h (new_record (c ++ h) f e) db (db c h);
  find_unique = λ c h db. db c h;
  delete = λ id db c h. change id (λ r. none) (db c h);
  update = λ id s b db c h. change id (λ r. some (completed_record r s b)) (db c h);
  delete_in_progress = λ id db c h. change id unless_completed (db c h);
}

changed :
    (f : IdempotencyRecord → Option IdempotencyRecord) (o : Option IdempotencyRecord)
    (r : IdempotencyRecord)
    → o ≡ some r
    → change r.id f o ≡ f r
changed f o r e = rw (e, text_eq_refl r.id) refl

pub laws : TableLaws rows
laws = record {
  create_taken = λ c h f e db r found. rw found refl;
  create_free = λ c h f e db free. (
    c ++ h,
    insert c h (new_record (c ++ h) f e) db,
    rw free refl,
    rw (text_eq_refl c, text_eq_refl h) refl,
  );
  delete_found = λ c h db r found. changed (λ r. none) (db c h) r found;
  update_found =
      λ c h s b db r found. changed (λ r. some (completed_record r s b)) (db c h) r found;
  delete_in_progress_found =
      λ c h db r found busy. changed unless_completed (db c h) r found ∙ rw busy refl;
}

abbrev sha256 : Text → Text
sha256 key = key

abbrev serialize : Text → Text
serialize body = body

abbrev pub no_rows : Rows
no_rows c h = none

-- A clock that is read at the hour, in milliseconds, and then once a second.
abbrev pub at_hour : ℕ → ℕ → ℕ
at_hour hour n = hour * 3600000 + n * 1000

abbrev header : Value
header = string (codes "invoice-2024-000001")

abbrev company : Text
company = codes "acme"

-- What the first request leaves.
abbrev stored : Rows
stored = complete rows sha256 serialize (codes "acmeinvoice-2024-000001") 201 (codes "F001-1") (
    insert company (codes "invoice-2024-000001")
      (new_record (codes "acmeinvoice-2024-000001") (codes "f1") (at_hour 24 0)) no_rows)

opened : Unit {0}
unfolding text_eq is_alnum is_digit is_upper is_lower is_space is_key_unit check_key_text
    validate_idempotency_key answer_existing begin complete abort handle after_begin intercept
opened = tt

first_run :
    intercept rows sha256 serialize
      (at_hour 0)
      company
      header
      (codes "f1")
      (ok (201, codes "F001-1"))
      no_rows
    ≡ (ok (record { status = 201; body = some (codes "F001-1"); replayed = false }), stored)
unfolding opened
first_run = refl

valid_header : validate_idempotency_key header ≡ ok (codes "invoice-2024-000001")
unfolding opened
valid_header = refl

-- A request that waits in the table.
abbrev waiting : IdempotencyRecord
waiting = new_record (codes "w") (codes "f1") (at_hour 24 0)

abbrev waiting_rows : Rows
waiting_rows = insert company (codes "invoice-2024-000001") waiting no_rows

waiting_found : waiting_rows company (codes "invoice-2024-000001") ≡ some waiting
unfolding opened
waiting_found = refl

abbrev failed : Rows
failed = abort rows sha256 serialize (codes "acmeinvoice-2024-000001") (
    insert company (codes "invoice-2024-000001")
      (new_record (codes "acmeinvoice-2024-000001") (codes "f1") (at_hour 24 0)) no_rows)

failing_run :
    intercept rows sha256 serialize
      (at_hour 0)
      company
      header
      (codes "f1")
      (err (codes "SUNAT"))
      no_rows
    ≡ (err (handler_error (codes "SUNAT")), failed)
unfolding opened
failing_run = refl

validate_idempotency_key_iff_example :
    (validate_idempotency_key header ≡ ok (codes "invoice-2024-000001")) ↔ (
      (header ≡ string (codes "invoice-2024-000001"))
      × (16 ≤ length (codes "invoice-2024-000001"))
      × (length (codes "invoice-2024-000001") ≤ 128)
      × (all is_key_unit (codes "invoice-2024-000001") ≡ true))
validate_idempotency_key_iff_example =
    validate_idempotency_key_iff header (codes "invoice-2024-000001")

begin-Outcome_example :
    Outcome rows laws sha256 serialize
      (at_hour 30)
      company
      (codes "k")
      (codes "f1")
      stored
      (stored company (codes "k"))
      (begin rows sha256 serialize 2 (at_hour 30) company (codes "k") (codes "f1") stored)
begin-Outcome_example =
    begin-Outcome rows laws sha256 serialize (at_hour 30) company (codes "k") (codes "f1") stored

intercept-conflict_example :
    (codes "f1" ≢ codes "f2"
      → intercept rows sha256 serialize
          (at_hour 1)
          company
          header
          (codes "f2")
          (ok (201, codes "F001-1"))
          waiting_rows
        ≡ (err different_request, waiting_rows))
    × (codes "f1" ≡ codes "f2"
        → in_progress ≡ in_progress
        → intercept rows sha256 serialize
            (at_hour 1)
            company
            header
            (codes "f2")
            (ok (201, codes "F001-1"))
            waiting_rows
          ≡ (err already_in_progress, waiting_rows))
intercept-conflict_example =
    intercept-conflict rows laws sha256 serialize (at_hour 1) company header
      (codes "invoice-2024-000001") (codes "f2") (ok (201, codes "F001-1")) waiting_rows waiting
      refl valid_header waiting_found (omega arith)

intercept-retries_example :
    (db : Rows) × (intercept rows sha256 serialize
        (at_hour 1)
        company
        header
        (codes "f1")
        (ok (201, codes "F001-1"))
        failed
      ≡ (ok (record { status = 201; body = some (codes "F001-1"); replayed = false }), db))
intercept-retries_example =
    intercept-retries rows laws sha256 serialize (at_hour 0) (at_hour 1) company header
      (codes "invoice-2024-000001") (codes "f1") (codes "f1") (codes "SUNAT") (err (codes "SUNAT"))
      no_rows failed 201 (codes "F001-1") refl valid_header failing_run

path_opened : Unit {0}
unfolding trim trim_start trim_end trim_end_cons is_space text_eq collapse add_leading drop_trailing
    normalize_pathname before_mark after_mark normalize_path is_lower upper_unit to_upper
    normalize_method
path_opened = tt

path_run :
    (normalize_path (λ q. codes "a=1") (string (codes " api//documents/?b=2&a=1 "))
      ≡ codes "/api/documents?a=1")
    × (normalize_path (λ q. []) (string (codes "//")) ≡ codes "/")
    × (normalize_method (λ s. s) (string (codes "post ")) ≡ codes "POST")
unfolding path_opened
path_run = (refl, refl, refl)
