-- ===== src/Outbox/Publishing.antt =====
-- A whole batch of one worker (src/outbox/outbox.service.ts).
use mathlib.Core.List.{Memᴰ}
use facturify.Base.{
  ℕ, suc, ◌+◌, ◌-◌, ◌*◌, ◌<◌, ◌≤◌, ◌≡◌, ◌≢◌, ◌⊎◌, refl, sym, ap, subst, ◌∙◌, Bool, true, false,
  Option, none, some, List, map, filter, take, length, all, min, leb, arith, inl, inr, Bool-cases,
  Memᴰ-filter,
}
use facturify.Js.Text.{Text}
use facturify.Backoff.{max_retry_delay_ms}
use facturify.Outbox.{WebhookDeliveryLog, EventUpdate, completed, pending, dead, is_success}
use facturify.Outbox.Laws.{settle-IsRescheduled}
use facturify.Outbox.Table.{
  OutboxEventStatus, OutboxEvent, waiting, processing, done, given_up, is_waiting, is_stale,
  set_back, is_due, claimed, updated, OutboxTable, OutboxLaws,
}
use facturify.Outbox.Rows.{
  filter-map, take-map, length-map, length-take, Memᴰ-map, Memᴰ-take, IsRow, same_row, Distinct,
  Distinct-IsRow, Distinct-filter, Distinct-take, Distinct-change,
}
use facturify.Outbox.Batch.{
  safe_limit, release, candidates, outcome_of, process_events, process_batch,
}
use facturify.Outbox.Settling.{
  is_ready, IsClamped, safe_limit-IsClamped, released, released-is_due, settled,
  process_events-AreSettled, process_events-other,
}

is_waiting-eq : (s : OutboxEventStatus) → is_waiting s ≡ true → s ≡ waiting
is_waiting-eq waiting h = refl
is_waiting-eq processing h = cc
is_waiting-eq done h = cc
is_waiting-eq given_up h = cc

true-false : true ≢ false
true-false e = cc

module _ (T : OutboxTable) (L : OutboxLaws T) (parse_date : Text → Option ℕ) (has_policy : Bool)
    (dispatch : Text → Text → Text → Option (List WebhookDeliveryLog)) where
  open T use {Db, rows}

  -- The calls of the webhooks threw, or a delivery did not succeed.
  abbrev pub NoSuccess : OutboxEvent → Type 0
  NoSuccess e =
      (ls : List WebhookDeliveryLog)
      → dispatch e.company_id e.event e.payload ≡ some ls
      → all is_success ls ≡ false

  -- The row f after the event e was published: one attempt more, no lock, and done exactly for deliveries that all
  -- succeeded. Else it waits for another attempt, where one is left, or is given up, where none is left or a delivery
  -- failed; it is then due within 15 minutes.
  pub record IsPublished (now : ℕ) (e f : OutboxEvent) : Type 0 where
    pub attempt : f.attempt ≡ suc e.attempt
    pub unlocked : f.locked_at ≡ none
    pub outcome :
        ((ls : List WebhookDeliveryLog) × (dispatch e.company_id e.event e.payload ≡ some ls)
          × (all is_success ls ≡ true)
          × (f.status ≡ done))
        ⊎ ((delay : ℕ) × (delay ≤ max_retry_delay_ms)
            × NoSuccess e
            × (f.next_attempt_at ≡ now + delay)
            × (((f.status ≡ waiting) × (suc e.attempt < e.max_attempts))
                ⊎ ((f.status ≡ given_up)
                    × ((e.max_attempts ≤ suc e.attempt)
                        ⊎ ((ls : List WebhookDeliveryLog) × (dispatch e.company_id e.event e.payload
                              ≡ some ls)
                            × (all is_success ls ≡ false))))))

  done-IsPublished :
      (now : ℕ) (e : OutboxEvent) (u : EventUpdate) (ls : List WebhookDeliveryLog)
      → dispatch e.company_id e.event e.payload ≡ some ls
      → all is_success ls ≡ true
      → u ≡ completed
      → IsPublished now e (updated now u (claimed now e))
  done-IsPublished now e u ls given all_done is =
      rw is (record { attempt = refl; unlocked = refl; outcome = inl (ls, given, all_done, refl) })

  -- A wait where attempts are left.
  waits-IsPublished :
      (now : ℕ) (e : OutboxEvent) (delay : ℕ) (u : EventUpdate)
      → delay ≤ max_retry_delay_ms
      → NoSuccess e
      → u ≡ pending delay
      → suc e.attempt < e.max_attempts
      → IsPublished now e (updated now u (claimed now e))
  waits-IsPublished now e delay u short failed is left = rw is (record {
    attempt = refl;
    unlocked = refl;
    outcome = inr (delay, short, failed, refl, inl (refl, left));
  })

  given_up-IsPublished :
      (now : ℕ) (e : OutboxEvent) (delay : ℕ) (u : EventUpdate)
      → delay ≤ max_retry_delay_ms
      → NoSuccess e
      → u ≡ dead delay
      → (e.max_attempts ≤ suc e.attempt)
        ⊎ ((ls : List WebhookDeliveryLog) × (dispatch e.company_id e.event e.payload ≡ some ls)
            × (all is_success ls ≡ false))
      → IsPublished now e (updated now u (claimed now e))
  given_up-IsPublished now e delay u short failed is why = rw is (record {
    attempt = refl;
    unlocked = refl;
    outcome = inr (delay, short, failed, refl, inr (refl, why));
  })

  reason-NoSuccess :
      (e : OutboxEvent) {A : Type 0} {V : List WebhookDeliveryLog → Type 0}
      → ((dispatch e.company_id e.event e.payload ≡ none) × A)
        ⊎ ((ls : List WebhookDeliveryLog) × (dispatch e.company_id e.event e.payload ≡ some ls)
            × (all is_success ls ≡ false)
            × V ls)
      → NoSuccess e
  reason-NoSuccess e (inl (threw, _)) ls given =
      let no : Path (Option (List WebhookDeliveryLog)) none (some ls) = sym threw ∙ given in cc
  reason-NoSuccess e (inr (ls', given', failed, _)) ls given =
      let same : Path (Option (List WebhookDeliveryLog)) (some ls') (some ls) =
        sym given' ∙ given in
      let lists : ls' ≡ ls = cc in rw (sym lists) failed

  settled-IsPublished :
      (now : ℕ) (e : OutboxEvent)
      → IsPublished now e (settled T L parse_date has_policy dispatch now e)
  settled-IsPublished now e =
      let u = outcome_of T parse_date has_policy dispatch now e in
      let sent = dispatch e.company_id e.event e.payload in
      elim (settle-IsRescheduled parse_date now has_policy (suc e.attempt) e.max_attempts sent) [
        | inl (ls, given, all_done, is) ↦ done-IsPublished now e u ls given all_done is
        | inr (retryable, why, is) ↦
            let no_success : NoSuccess e = reason-NoSuccess e why in
            elim (Bool-cases (leb e.max_attempts (suc e.attempt))) [
              | inl used ↦
                  let none_left : e.max_attempts ≤ suc e.attempt = ground (arith, used) in
                  given_up-IsPublished now e is.delay u is.bounded no_success
                    (is.given_up (inl none_left)) (inl none_left)
              | inr left ↦
                  let some_left : suc e.attempt < e.max_attempts = ground (arith, left) in
                  elim (Bool-cases retryable) [
                    | inl again ↦
                        waits-IsPublished now e is.delay u is.bounded no_success
                          (is.tried_again some_left again) some_left
                    | inr never ↦ elim why [
                      | inl (_, again) ↦ absurd (true-false (sym again ∙ never))
                      | inr (ls, given, failed, _) ↦
                          given_up-IsPublished now e is.delay u is.bounded no_success
                            (is.given_up (inr never)) (inr (ls, given, failed))
                    ]
                  ]
            ]
      ]

  -- The events that are ready, in the order of their creation.
  abbrev pub ready : ℕ → Db → List OutboxEvent
  ready now db = filter (is_ready now) (rows db)

  release-rows :
      (now : ℕ) (db : Db) → rows (release T (now - 5 * 60000) db) ≡ map (released now) (rows db)
  unfolding release
  release-rows now db = L.update_many_rows (is_stale (now - 5 * 60000)) set_back db (λ f. refl)

  candidates-ready :
      (limit now : ℕ) (db : Db)
      → candidates T limit now (release T (now - 5 * 60000) db)
        ≡ map (released now) (take limit (ready now db))
  unfolding candidates
  candidates-ready limit now db =
      L.find_many_rows (is_due now) limit (release T (now - 5 * 60000) db)
      ∙ ap (λ es. take limit (filter (is_due now) es)) (release-rows now db)
      ∙ ap (take limit)
          (filter-map (is_due now) (is_ready now) (released now) (rows db) (released-is_due now))
      ∙ take-map (released now) limit (ready now db)

  -- What a batch does to the table: at most `size` of the events that are ready, the oldest first, are published,
  -- and an event that is not ready is left, without its lock where that was stale.
  pub record IsBatch (limit now : ℕ) (db : Db) (r : ℕ × Db) : Type 0 where
    pub size : ℕ
    pub clamped : IsClamped limit size
    pub counted : r.0 ≡ min size (length (ready now db))
    pub published :
        (e : OutboxEvent)
        → Memᴰ e (take size (ready now db))
        → (f : OutboxEvent) × IsRow e.id f (rows r.1) × IsPublished now e f
    pub left :
        (e : OutboxEvent)
        → Memᴰ e (rows db)
        → is_ready now e ≡ false
        → IsRow e.id (released now e) (rows r.1)

  -- The events are published with the same attempt and the same deliveries, whether a stale lock is set back or not.
  released-IsPublished :
      (now : ℕ) (e f : OutboxEvent) → IsPublished now (released now e) f → IsPublished now e f
  released-IsPublished now e f is = elim (Bool-cases (is_stale (now - 5 * 60000) e)) [
    | inl stale ↦
        let same : released now e ≡ set_back e = rw stale refl in
        let it : IsPublished now (set_back e) f = subst (λ x. IsPublished now x f) same is in
        record { attempt = it.attempt; unlocked = it.unlocked; outcome = it.outcome }
    | inr fresh ↦
        let same : released now e ≡ e = rw fresh refl in subst (λ x. IsPublished now x f) same is
  ]

  released-id : (now : ℕ) (e : OutboxEvent) → (released now e).id ≡ e.id
  released-id now e = elim (Bool-cases (is_stale (now - 5 * 60000) e)) [
    | inl stale ↦ rw stale refl
    | inr fresh ↦ rw fresh refl
  ]

  -- The candidates of a batch are rows of the table that are due.
  candidates-due :
      (limit now : ℕ) (db : Db) (f : OutboxEvent)
      → Distinct (rows db)
      → Memᴰ f (candidates T limit now db)
      → IsRow f.id f (rows db) × (is_due now f ≡ true)
  unfolding candidates
  candidates-due limit now db f distinct m =
      let among : Memᴰ f (take limit (filter (is_due now) (rows db))) =
        rw (L.find_many_rows (is_due now) limit db) at m in
      let (found, due) =
        (Memᴰ-filter (is_due now) f (rows db)).0
          (Memᴰ-take limit (filter (is_due now) (rows db)) f among) in
      (Distinct-IsRow (rows db) f distinct found, due)

  candidates-Distinct :
      (limit now : ℕ) (db : Db) → Distinct (rows db) → Distinct (candidates T limit now db)
  unfolding candidates
  candidates-Distinct limit now db distinct = rw (L.find_many_rows (is_due now) limit db) (
      Distinct-take limit (filter (is_due now) (rows db))
        (Distinct-filter (is_due now) (rows db) distinct))

  due-waiting : (now : ℕ) (f : OutboxEvent) → is_due now f ≡ true → f.status ≡ waiting
  due-waiting now f h = is_waiting-eq f.status (ground (arith, h))

  -- An event that is not ready is no candidate.
  candidates-apart :
      (limit now : ℕ) (db : Db) (e g : OutboxEvent)
      → Distinct (rows db)
      → IsRow e.id e (rows db)
      → is_due now e ≡ false
      → Memᴰ g (candidates T limit now db)
      → g.id ≢ e.id
  candidates-apart limit now db e g distinct is not_due m same =
      let (found, due) = candidates-due limit now db g distinct m in
      let one : g ≡ e =
        same_row e.id g e (rows db) (subst (λ i. IsRow i g (rows db)) same found) is in
      true-false (sym due ∙ ap (is_due now) one ∙ not_due)

  -- A batch of one worker publishes the events that are ready: those that wait and whose time has come, and those
  -- whose lock is older than five minutes. It takes the oldest, as many as the limit, and at least 1 and at most 100, publishes
  -- each of them with one attempt more, counts them, and leaves what is not ready, but for stale locks. Assumed are the primary key, the
  -- documented behaviour of the database, and that nobody else uses it meanwhile.
  pub process_batch-IsBatch :
      (limit now : ℕ) (db : Db)
      → Distinct (rows db)
      → IsBatch limit now db (process_batch T parse_date has_policy dispatch limit now db)
  unfolding process_batch
  process_batch-IsBatch limit now db distinct =
      let size = safe_limit limit in
      let db' = release T (now - 5 * 60000) db in
      let es = candidates T size now db' in
      let r = process_events T parse_date has_policy dispatch now es db' in
      let distinct' : Distinct (rows db') =
        rw (release-rows now db)
          (Distinct-change (is_stale (now - 5 * 60000)) set_back (rows db) (λ f. refl) distinct) in
      let (count, all_settled) =
        process_events-AreSettled T L parse_date has_policy dispatch now es db'
          (candidates-Distinct size now db' distinct')
          (λ f m.
            let (found, due) = candidates-due size now db' f distinct' m in
            (found, due-waiting now f due)) in
      let listed = candidates-ready size now db in
      record {
        size = size;
        clamped = safe_limit-IsClamped limit;
        counted =
            count
            ∙ ap length listed
            ∙ length-map (released now) (take size (ready now db))
            ∙ length-take size (ready now db);
        published = λ e m.
            let among : Memᴰ (released now e) es =
              rw listed (Memᴰ-map (released now) (take size (ready now db)) e m) in
            (
              settled T L parse_date has_policy dispatch now (released now e),
              subst
                  (λ i.
                    IsRow i (settled T L parse_date has_policy dispatch now (released now e))
                      (rows r.1))
                  (released-id now e) (all_settled (released now e) among),
              released-IsPublished now e
                  (settled T L parse_date has_policy dispatch now (released now e))
                  (settled-IsPublished now (released now e)),
            );
        left = λ e m not_ready.
            let found : Memᴰ (released now e) (rows db') =
              rw (release-rows now db) (Memᴰ-map (released now) (rows db) e m) in
            let is = Distinct-IsRow (rows db') (released now e) distinct' found in
            subst (λ i. IsRow i (released now e) (rows r.1)) (released-id now e)
              (process_events-other T L parse_date has_policy dispatch now es (released now e) db'
                (λ g mg.
                  candidates-apart size now db' (released now e) g distinct' is
                    (released-is_due now e ∙ not_ready) mg)
                is);
      }
