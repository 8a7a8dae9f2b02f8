-- ===== src/Outbox/Table.antt =====
-- The table of events to publish (prisma/schema.prisma), behind Prisma, a package outside the repository, and the
-- conditions and changes of the statements of `OutboxService` (src/outbox/outbox.service.ts).
use facturify.Base.{
  ℕ, suc, ◌+◌, ◌≡◌, Bool, true, false, ◌&&◌, Option, none, some, List, map, filter, take, length,
  leb, ltb, if◌then◌else◌,
}
use facturify.Js.Text.{Text, text_eq}
use facturify.Outbox.{EventUpdate, completed, pending, dead}

pub data OutboxEventStatus : Type 0 where
  waiting processing done given_up : OutboxEventStatus

-- What a batch uses of a row.
pub record OutboxEvent : Type 0 where
  pub id : Text
  pub company_id : Text
  pub event : Text
  pub payload : Text
  pub status : OutboxEventStatus
  pub attempt : ℕ
  pub max_attempts : ℕ
  pub next_attempt_at : ℕ
  pub locked_at : Option ℕ

-- The row after a claim at a time.
abbrev pub claimed : ℕ → OutboxEvent → OutboxEvent
claimed now e = record e { status = processing; locked_at = some now; attempt = suc e.attempt }

-- The row after an update at a time.
abbrev pub updated : ℕ → EventUpdate → OutboxEvent → OutboxEvent
updated now completed e = record e { status = done; locked_at = none }
updated now (pending ms) e = record e {
  status = waiting;
  next_attempt_at = now + ms;
  locked_at = none;
}
updated now (dead ms) e = record e {
  status = given_up;
  next_attempt_at = now + ms;
  locked_at = none;
}

abbrev pub is_waiting : OutboxEventStatus → Bool
is_waiting waiting = true
is_waiting _ = false

abbrev pub is_processing : OutboxEventStatus → Bool
is_processing processing = true
is_processing _ = false

abbrev pub locked_before : ℕ → Option ℕ → Bool
locked_before stale none = false
locked_before stale (some lock) = ltb lock stale

-- `where: { status: PROCESSING, lockedAt: { lt: staleLock } }`
abbrev pub is_stale : ℕ → OutboxEvent → Bool
is_stale stale e = is_processing e.status && locked_before stale e.locked_at

-- `data: { status: PENDING, lockedAt: null }`
abbrev pub set_back : OutboxEvent → OutboxEvent
set_back e = record e { status = waiting; locked_at = none }

-- `where: { status: PENDING, nextAttemptAt: { lte: now } }`
abbrev pub is_due : ℕ → OutboxEvent → Bool
is_due now e = is_waiting e.status && leb e.next_attempt_at now

abbrev pub has_id : Text → OutboxEvent → Bool
has_id id e = text_eq e.id id

-- `where: { id: event.id, status: PENDING }`
abbrev pub is_claimable : Text → OutboxEvent → Bool
is_claimable id e = has_id id e && is_waiting e.status

-- The rows where some condition holds are changed.
abbrev pub change : (OutboxEvent → Bool) → (OutboxEvent → OutboxEvent) → OutboxEvent → OutboxEvent
change condition data' e = if condition e then data' e else e

-- `rows` are the rows in the order of their creation. `update_many` takes the condition and the change, and counts
-- the rows that it changed; `find_many` takes the condition and the most rows to give, the oldest first; `update`
-- changes the row of an identifier; `create` takes the identifier, company, name and payload of an event.
pub record OutboxTable : Type 1 where
  pub Db : Type 0
  pub rows : Db → List OutboxEvent
  pub update_many : (OutboxEvent → Bool) → (OutboxEvent → OutboxEvent) → Db → ℕ × Db
  pub find_many : (OutboxEvent → Bool) → ℕ → Db → List OutboxEvent
  pub update : Text → (OutboxEvent → OutboxEvent) → Db → Db
  pub create : Text → Text → Text → Text → Db → Option Db

abbrev pub KeepsId : (OutboxEvent → OutboxEvent) → Type 0
KeepsId data' = (e : OutboxEvent) → (data' e).id ≡ e.id

-- The documented behaviour of Prisma over a database that is up: any condition and any change that keeps
-- the identifiers, each statement at once.
pub record OutboxLaws (T : OutboxTable) : Type 0 where
  pub update_many_count :
      (condition : OutboxEvent → Bool) (data' : OutboxEvent → OutboxEvent) (db : T.Db)
      → (T.update_many condition data' db).0 ≡ length (filter condition (T.rows db))
  pub update_many_rows :
      (condition : OutboxEvent → Bool) (data' : OutboxEvent → OutboxEvent) (db : T.Db)
      → KeepsId data'
      → T.rows (T.update_many condition data' db).1 ≡ map (change condition data') (T.rows db)
  pub find_many_rows :
      (condition : OutboxEvent → Bool) (most : ℕ) (db : T.Db)
      → T.find_many condition most db ≡ take most (filter condition (T.rows db))
  pub update_rows :
      (id : Text) (data' : OutboxEvent → OutboxEvent) (db : T.Db)
      → KeepsId data'
      → T.rows (T.update id data' db) ≡ map (change (has_id id) data') (T.rows db)
