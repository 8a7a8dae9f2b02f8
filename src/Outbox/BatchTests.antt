-- ===== src/Outbox/BatchTests.antt =====
-- A table that is a list of rows, and batches on it.
use mathlib.Core.List.{Memᴰ}
use mathlib.Core.List.Memᴰ
use facturify.Base.{
  ◌≡◌, ◌≢◌, refl, subst, ap, ◌∙◌, Bool, all, not, true, Option, none, some, List, [], ◌∷◌, ◌++◌,
  map, filter, take, length, arith, inl, inr, if◌then◌else◌,
}
use facturify.Base.Result.{ok, err}
use facturify.Js.Text.{Text, codes, text_eq, is_digit}
use facturify.Js.Text.Laws.{text_eq_refl}
use facturify.Js.Number.{of_ℕ, is_finite, is_integer, lt_num, floor_ℕ}
use facturify.Js.Integer.{integer_of_num}
use facturify.Delivery.{
  evaluate, decide, next_delay, read_attempt, read_max_attempts, read_jitter, read_status_code,
  parse_retry_after, is_retryable_status_code, is_successful_status_code,
}
use facturify.Backoff.{calculate_exponential_backoff}
use facturify.Outbox.{
  settle, WebhookDeliveryLog, context_of, longest_delay, reschedule, decisions_on, after_decisions,
}
use facturify.Outbox.Tests.{no_dates, delivered, timed_out}
use facturify.Outbox.Table.{
  OutboxEvent, waiting, processing, done, has_id, change, OutboxTable, OutboxLaws,
}
use facturify.Outbox.Rows.{IsRow, Distinct}
use facturify.Outbox.Batch.{
  release, candidates, claim, finish, process_event, process_events, process_batch, read_integer,
  PublicEventEnvelope, incompatible_status, is_id_unit, enqueue, DocumentEventType,
  enqueue_document,
}
use facturify.Outbox.Publishing.{IsBatch, process_batch-IsBatch}
use facturify.Outbox.Claims.{releases, claims, execute, wins, count_wins, count_wins-once}

abbrev new_row : Text → Text → Text → Text → OutboxEvent
new_row id company event payload = record {
  id = id;
  company_id = company;
  event = event;
  payload = payload;
  status = waiting;
  attempt = 0;
  max_attempts = 5;
  next_attempt_at = 0;
  locked_at = none;
}

abbrev list_table : OutboxTable
list_table = record {
  Db = List OutboxEvent;
  rows = λ es. es;
  update_many =
      λ condition data' es. (length (filter condition es), map (change condition data') es);
  find_many = λ condition most es. take most (filter condition es);
  update = λ id data' es. map (change (has_id id) data') es;
  create = λ id company event payload es. some (es ++ (new_row id company event payload ∷ []));
}

list_table_laws : OutboxLaws list_table
list_table_laws = record {
  update_many_count = λ condition data' es. refl;
  update_many_rows = λ condition data' es keeps. refl;
  find_many_rows = λ condition most es. refl;
  update_rows = λ id data' es keeps. refl;
}

abbrev event_id : Text
event_id = codes "3f2504e0-4f89-41d3-9a0c-0305e82c3301"

abbrev due_event : OutboxEvent
due_event = new_row event_id (codes "c1") (codes "document.accepted") (codes "{}")

-- Locked too long ago, and not due yet.
abbrev stuck_event : OutboxEvent
stuck_event = record (new_row (codes "b") (codes "c2") (codes "document.error") (codes "{}")) {
  status = processing;
  attempt = 1;
  locked_at = some 1000;
}

abbrev later_event : OutboxEvent
later_event = record (new_row (codes "c") (codes "c1") (codes "document.error") (codes "{}")) {
  next_attempt_at = 999999;
}

abbrev events : List OutboxEvent
events = due_event ∷ stuck_event ∷ later_event ∷ []

-- The webhooks of the first company do not answer.
abbrev call : Text → Text → Text → Option (List WebhookDeliveryLog)
call company event payload =
    if text_eq company (codes "c1")
    then some (delivered ∷ timed_out ∷ [])
    else some (delivered ∷ [])

abbrev envelope : PublicEventEnvelope
envelope = record {
  event_id = event_id;
  event = codes "document.accepted";
  company_id = codes "c1";
  json = codes "{}";
}

opened : Unit {0}
unfolding text_eq is_digit is_id_unit enqueue enqueue_document is_finite is_integer lt_num floor_ℕ
    evaluate decide next_delay read_attempt read_max_attempts read_jitter read_status_code
    parse_retry_after is_retryable_status_code is_successful_status_code
    calculate_exponential_backoff context_of longest_delay reschedule decisions_on after_decisions
    settle release candidates claim finish process_event process_events process_batch integer_of_num
    read_integer execute wins count_wins
opened = tt

batch_run : process_batch list_table no_dates true call 20 400000 events ≡ (
  2,
  record due_event { attempt = 1; next_attempt_at = 401000 }
      ∷ record stuck_event { status = done; attempt = 2; locked_at = none }
      ∷ later_event
      ∷ [],
)
unfolding opened
batch_run = refl

-- A limit of one takes the oldest.
limit_run : (process_batch list_table no_dates true call 1 400000 events).0 ≡ 1
unfolding opened
limit_run = refl

enqueue_run :
    enqueue_document list_table DocumentEventType.accepted (codes "ACCEPTED") envelope []
    ≡ ok (due_event ∷ [])
unfolding opened
enqueue_run = refl

status_run :
    enqueue_document list_table DocumentEventType.accepted (codes "PENDING") envelope []
    ≡ err incompatible_status
unfolding opened
status_run = refl

interval_run : read_integer (of_ℕ 500) 5000 1000 60000 ≡ 5000
unfolding opened
interval_run = refl

abbrev differs_from : Text → List OutboxEvent → Bool
differs_from id = all (λ f. not (text_eq id f.id))

apart_of :
    (id : Text) (es : List OutboxEvent)
    → differs_from id es ≡ true
    → (f : OutboxEvent) → Memᴰ f es
    → id ≢ f.id
apart_of id [] h f m e = elim m [ ]
apart_of id (g ∷ es) h f m e = elim (Memᴰ.cases_cons m) [
  | inl is ↦
      let same : text_eq id g.id ≡ true =
        subst (λ i. text_eq id i ≡ true) (e ∙ ap (λ x. x.id) is) (text_eq_refl id) in
      ground (arith, h, same)
  | inr later ↦
      let rest : differs_from id es ≡ true = ground (arith, h) in apart_of id es rest f later e
]

events-Distinct : Distinct events
unfolding text_eq
events-Distinct = (
  apart_of due_event.id (stuck_event ∷ later_event ∷ []) refl,
  (apart_of stuck_event.id (later_event ∷ []) refl, (apart_of later_event.id [] refl, tt)),
)

process_batch-IsBatch_example :
    IsBatch list_table list_table_laws no_dates true call 20 400000 events
      (process_batch list_table no_dates true call 20 400000 events)
process_batch-IsBatch_example =
    process_batch-IsBatch list_table list_table_laws no_dates true call 20 400000 events
      events-Distinct

one_due : IsRow event_id due_event events
unfolding opened
one_due = refl

count_wins-once_example :
    count_wins list_table event_id
      (claims event_id 1000 ∷ claims event_id 1001 ∷ releases 900 ∷ claims event_id 1002 ∷ [])
      events
    ≡ 1
count_wins-once_example =
    count_wins-once list_table list_table_laws event_id due_event 1000
      (claims event_id 1001 ∷ releases 900 ∷ claims event_id 1002 ∷ []) events one_due refl
      (tt, (omega arith, (tt, tt)))
