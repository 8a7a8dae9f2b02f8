-- ===== src/Outbox/Settling.antt =====
-- What a batch of one worker does to the rows of the table (src/outbox/outbox.service.ts).
use mathlib.Core.List.{Memᴰ}
use mathlib.Core.List.Memᴰ
use facturify.Base.{
  ℕ, suc, ◌+◌, ◌-◌, ◌*◌, ◌≤◌, ◌≡◌, ◌≢◌, refl, sym, ap, subst, ◌∙◌, Bool, true, false, ◌&&◌, Option,
  none, some, List, [], ◌∷◌, length, leb, ltb, ◌==◌, arith, inl, inr, Bool-cases,
}
use facturify.Js.Text.{Text, text_eq}
use facturify.Js.Text.Laws.{eq_of_text_eq, text_eq_refl}
use facturify.Outbox.{WebhookDeliveryLog, EventUpdate}
use facturify.Outbox.Table.{
  OutboxEvent, OutboxEventStatus, waiting, processing, done, given_up, is_stale, set_back, is_due,
  has_id, is_claimable, claimed, updated, change, OutboxTable, OutboxLaws,
}
use facturify.Outbox.Rows.{IsRow, IsRow-change, updated-id, Distinct}
use facturify.Outbox.Batch.{
  safe_limit, claim, finish, deliveries_of, outcome_of, process_event, process_events,
}
use facturify.Outbox.Claims.{claim-waiting, claim-IsRow}

-- The event is to be published at a time: it waits for that time, or was locked more than five minutes before.
abbrev pub is_ready : ℕ → OutboxEvent → Bool
is_ready now e = leb e.next_attempt_at now && elim e.status [
  | waiting ↦ true
  | processing ↦ elim e.locked_at [ none ↦ false | some lock ↦ ltb (lock + 300000) now ]
  | _ ↦ false
]

-- A limit from 1 to 100 holds as it is.
pub record IsClamped (limit size : ℕ) : Type 0 where
  pub small : limit ≤ 1 → size ≡ 1
  pub same : 1 ≤ limit → limit ≤ 100 → size ≡ limit
  pub large : 100 ≤ limit → size ≡ 100

pub safe_limit-IsClamped : (limit : ℕ) → IsClamped limit (safe_limit limit)
safe_limit-IsClamped limit = record {
  small = λ h. omega (arith, h);
  same = λ h k. omega (arith, h, k);
  large = λ h. omega (arith, h);
}

-- A row once the stale locks are set back.
abbrev pub released : ℕ → OutboxEvent → OutboxEvent
released now = change (is_stale (now - 5 * 60000)) set_back

abbrev with_lock : OutboxEvent → OutboxEventStatus → Option ℕ → OutboxEvent
with_lock e s l = record e { status = s; locked_at = l }

with_lock-is_due :
    (now : ℕ) (e : OutboxEvent) (s : OutboxEventStatus) (l : Option ℕ)
    → is_due now (released now (with_lock e s l)) ≡ is_ready now (with_lock e s l)
with_lock-is_due now e waiting l = ground arith
with_lock-is_due now e done l = ground arith
with_lock-is_due now e given_up l = ground arith
with_lock-is_due now e processing none = ground arith
with_lock-is_due now e processing (some lock) = elim (Bool-cases (ltb lock (now - 5 * 60000))) [
  | inl stale ↦
      let past : ltb (lock + 300000) now ≡ true = ground (arith, stale) in
      rw (stale, past) (ground arith)
  | inr fresh ↦
      let late : ltb (lock + 300000) now ≡ false = ground (arith, fresh) in
      rw (fresh, late) (ground arith)
]

pub released-is_due : (now : ℕ) (e : OutboxEvent) → is_due now (released now e) ≡ is_ready now e
released-is_due now e = with_lock-is_due now e e.status e.locked_at

module _ (T : OutboxTable) (L : OutboxLaws T) (parse_date : Text → Option ℕ) (has_policy : Bool)
    (dispatch : Text → Text → Text → Option (List WebhookDeliveryLog)) where
  open T use {Db, rows}

  -- The row after an event was processed.
  abbrev pub settled : ℕ → OutboxEvent → OutboxEvent
  settled now e = updated now (outcome_of T parse_date has_policy dispatch now e) (claimed now e)

  abbrev pub deliveries : OutboxEvent → Option (List WebhookDeliveryLog)
  deliveries = deliveries_of T parse_date has_policy dispatch

  abbrev after : ℕ → OutboxEvent → Db → Bool × Db
  after now e db = process_event T parse_date has_policy dispatch now e db

  abbrev run : ℕ → List OutboxEvent → Db → ℕ × Db
  run now es db = process_events T parse_date has_policy dispatch now es db

  finish-IsRow :
      (id other : Text) (now : ℕ) (u : EventUpdate) (e : OutboxEvent) (db : Db)
      → IsRow id e (rows db)
      → IsRow id (change (has_id other) (updated now u) e) (rows (finish T other now u db))
  unfolding finish
  finish-IsRow id other now u e db is =
      rw (L.update_rows other (updated now u) db (updated-id now u))
        (IsRow-change id (has_id other) (updated now u) e (rows db) (updated-id now u) is)

  process_event-waiting :
      (now : ℕ) (e : OutboxEvent) (db : Db)
      → IsRow e.id e (rows db)
      → e.status ≡ waiting
      → ((after now e db).0 ≡ true) × IsRow e.id (settled now e) (rows (after now e db).1)
  unfolding process_event
  process_event-waiting now e db is due =
      let (one, held) = claim-waiting T L e.id now e db is due in
      let u = outcome_of T parse_date has_policy dispatch now e in
      let last = finish-IsRow e.id e.id now u (claimed now e) (claim T e.id now db).1 held in
      (rw one refl, rw one (rw (text_eq_refl e.id) at last))

  process_event-other :
      (now : ℕ) (e f : OutboxEvent) (db : Db)
      → e.id ≢ f.id
      → IsRow f.id f (rows db)
      → IsRow f.id f (rows (after now e db).1)
  unfolding process_event
  process_event-other now e f db apart is =
      let miss : text_eq f.id e.id ≡ false = elim (Bool-cases (text_eq f.id e.id)) [
        | inr differs ↦ differs
        | inl same ↦ absurd (apart (sym (eq_of_text_eq f.id e.id same)))
      ] in
      let lost : is_claimable e.id f ≡ false = rw miss refl in
      let held : IsRow f.id f (rows (claim T e.id now db).1) =
        rw lost at (claim-IsRow T L f.id e.id now f db is) in
      elim (Bool-cases ((claim T e.id now db).0 == 1)) [
        | inl won ↦
            let u = outcome_of T parse_date has_policy dispatch now e in
            let kept = finish-IsRow f.id e.id now u f (claim T e.id now db).1 held in
            rw won (rw miss at kept)
        | inr lost_one ↦ rw lost_one held
      ]

  pub process_events-other :
      (now : ℕ) (es : List OutboxEvent) (f : OutboxEvent) (db : Db)
      → ((e : OutboxEvent) → Memᴰ e es → e.id ≢ f.id)
      → IsRow f.id f (rows db)
      → IsRow f.id f (rows (run now es db).1)
  unfolding process_events
  process_events-other now [] f db apart is = is
  process_events-other now (e ∷ es) f db apart is =
      process_events-other now es f (after now e db).1 (λ g m. apart g (Memᴰ.tail m))
        (process_event-other now e f db (apart e (Memᴰ.head refl)) is)

  settled-id : (now : ℕ) (e : OutboxEvent) → (settled now e).id ≡ e.id
  settled-id now e =
      updated-id now (outcome_of T parse_date has_policy dispatch now e) (claimed now e)

  abbrev pub AreSettled : ℕ → List OutboxEvent → ℕ × Db → Type 0
  AreSettled now es r =
      (r.0 ≡ length es) × ((e : OutboxEvent) → Memᴰ e es → IsRow e.id (settled now e) (rows r.1))

  pub process_events-AreSettled :
      (now : ℕ) (es : List OutboxEvent) (db : Db)
      → Distinct es
      → ((e : OutboxEvent) → Memᴰ e es → IsRow e.id e (rows db) × (e.status ≡ waiting))
      → AreSettled now es (run now es db)
  unfolding process_events
  process_events-AreSettled now [] db apart due = (refl, λ e m. elim m [ ])
  process_events-AreSettled now (e ∷ es) db (apart, distinct) due =
      let next = (after now e db).1 in
      let (is, waits) = due e (Memᴰ.head refl) in
      let (won, held) = process_event-waiting now e db is waits in
      let still_due : (f : OutboxEvent)
          → Memᴰ f es
          → IsRow f.id f (rows next) × (f.status ≡ waiting) =
        λ f m.
          let (f_is, f_waits) = due f (Memᴰ.tail m) in
          (process_event-other now e f db (apart f m) f_is, f_waits) in
      let (count, others) = process_events-AreSettled now es next distinct still_due in
      let same = settled-id now e in
      let first : IsRow e.id (settled now e) (rows (run now es next).1) =
        subst (λ i. IsRow i (settled now e) (rows (run now es next).1)) same
          (process_events-other now es (settled now e) next
            (λ f m at_once. apart f m (sym (at_once ∙ same)))
            (subst (λ i. IsRow i (settled now e) (rows next)) (sym same) held)) in
      (
        rw won (ap suc count),
        λ f m. elim (Memᴰ.cases_cons m) [
          | inl again ↦
              subst (λ x. IsRow x.id (settled now x) (rows (run now es next).1)) (sym again) first
          | inr later ↦ others f later
        ],
      )
