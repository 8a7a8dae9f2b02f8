-- ===== src/Outbox/Batch.antt =====
-- `processBatch` as one worker runs it, and enqueueing (src/outbox/outbox.service.ts,
-- src/outbox/document-event-outbox.service.ts), with the settings of the timer (src/outbox/outbox.processor.ts).
-- The time stands still in a batch.
use facturify.Base.{
  ℕ, suc, ◌-◌, ◌*◌, Bool, true, false, not, ◌&&◌, ◌||◌, Option, none, some, List, [], ◌∷◌, all,
  length, min, max, leb, ◌==◌, if◌then◌else◌,
}
use facturify.Base.Result.{Result, ok, err}
use facturify.Js.Text.{Text, text_eq, is_digit}
use facturify.Js.Number.{Num}
use facturify.Js.Integer.{pos, negsuc, integer_of_num}
use facturify.Lifecycle.Status.{DocumentStatus, status_name}
use facturify.Outbox.{WebhookDeliveryLog, EventUpdate, settle}
use facturify.Outbox.Table.{
  OutboxEvent, is_stale, set_back, is_due, is_claimable, claimed, updated, OutboxTable,
}

-- `Math.max(1, Math.min(100, limit))`
abbrev pub safe_limit : ℕ → ℕ
safe_limit limit = max 1 (min 100 limit)

module _ (T : OutboxTable) where
  open T use {Db, update_many, find_many, update}

  unfoldable pub release : ℕ → Db → Db
  release stale db = (update_many (is_stale stale) set_back db).1

  unfoldable pub candidates : ℕ → ℕ → Db → List OutboxEvent
  candidates limit now db = find_many (is_due now) limit db

  -- The count of the rows that were claimed, and the table.
  unfoldable pub claim : Text → ℕ → Db → ℕ × Db
  claim id now db = update_many (is_claimable id) (claimed now) db

  unfoldable pub finish : Text → ℕ → EventUpdate → Db → Db
  finish id now u db = update id (updated now u) db

module _ (T : OutboxTable) (parse_date : Text → Option ℕ) (has_policy : Bool)
    (dispatch : Text → Text → Text → Option (List WebhookDeliveryLog)) where
  open T use {Db}

  abbrev pub deliveries_of : OutboxEvent → Option (List WebhookDeliveryLog)
  deliveries_of e = dispatch e.company_id e.event e.payload

  -- What becomes of a candidate, for the attempt that it counts.
  abbrev pub outcome_of : ℕ → OutboxEvent → EventUpdate
  outcome_of now e =
      settle parse_date now has_policy (suc e.attempt) e.max_attempts (deliveries_of e)

  -- The claim of an event and, when it won, what is done with the event.
  unfoldable pub process_event : ℕ → OutboxEvent → Db → Bool × Db
  unfolding settle claim finish
  process_event now e db =
      let (count, held) = claim T e.id now db in
      if count == 1 then (true, finish T e.id now (outcome_of now e) held) else (false, held)

  -- The loop over the candidates: how many were processed, and the table.
  unfoldable pub process_events : ℕ → List OutboxEvent → Db → ℕ × Db
  unfolding process_event
  process_events now [] db = (0, db)
  process_events now (e ∷ es) db =
      let (won, next) = process_event now e db in
      let (processed, last) = process_events now es next in
      (if won then suc processed else processed, last)

  -- `5 * 60_000`
  unfoldable pub process_batch : ℕ → ℕ → Db → ℕ × Db
  unfolding process_events release candidates
  process_batch limit now db =
      let released = release T (now - 5 * 60000) db in
      process_events now (candidates T (safe_limit limit) now released) released

-- `readInteger`, with what `Number` makes of the setting.
unfoldable pub read_integer : Num → (fallback low high : ℕ) → ℕ
unfolding integer_of_num
read_integer x fallback low high = elim (integer_of_num x) [
  | some (pos n) ↦ if leb low n && leb n high then n else fallback
  | some (negsuc _) ↦ fallback
  | none ↦ fallback
]

pub data EnqueueError : Type 0 where
  invalid_envelope incompatible_status database : EnqueueError

pub record PublicEventEnvelope : Type 0 where
  pub event_id : Text
  pub event : Text
  pub company_id : Text
  -- The whole envelope as JSON.
  pub json : Text

-- `[0-9a-f-]`, under the flag `i`
unfoldable pub is_id_unit : ℕ → Bool
unfolding is_digit
is_id_unit c = is_digit c || (leb 97 c && leb c 102) || (leb 65 c && leb c 70) || c == 45

abbrev pub is_event_id : Text → Bool
is_event_id s = length s == 36 && all is_id_unit s

module _ (T : OutboxTable) where
  open T use {Db, create}

  unfoldable pub enqueue : PublicEventEnvelope → Db → Result EnqueueError Db
  unfolding is_id_unit
  enqueue payload db =
      if not (is_event_id payload.event_id)
        || length payload.company_id == 0
        || length payload.event == 0
      then err invalid_envelope
      else elim (create payload.event_id payload.company_id payload.event payload.json db) [
        | none ↦ err database
        | some db' ↦ ok db'
      ]

pub data DocumentEventType : Type 0 where
  created in_process accepted observed rejected voided failed : DocumentEventType

-- `EVENT_STATUS`; each of the lists there has one status.
abbrev pub event_status : DocumentEventType → DocumentStatus
event_status created = DocumentStatus.pending
event_status in_process = DocumentStatus.processing
event_status accepted = DocumentStatus.accepted
event_status observed = DocumentStatus.observed
event_status rejected = DocumentStatus.rejected
event_status voided = DocumentStatus.voided
event_status failed = DocumentStatus.error

module _ (T : OutboxTable) where
  -- `enqueue` of `DocumentEventOutboxService`, for an event, the document's status as a text, and the envelope.
  unfoldable pub enqueue_document :
      DocumentEventType → Text → PublicEventEnvelope → T.Db → Result EnqueueError T.Db
  unfolding enqueue text_eq
  enqueue_document event status payload db =
      if not (text_eq (status_name (event_status event)) status)
      then err incompatible_status
      else enqueue T payload db
