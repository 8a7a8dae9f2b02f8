-- ===== src/Ticket/Laws.antt =====
-- What a decision on a ticket says, for every context.
use native.Mathlib.Nat.{le-div_iff_mul-le}
use facturify.Base.{ℕ, ◌≤◌, ◌<◌, ◌≡◌, ◌≢◌, ◌↔◌, arith, true, false, Option, none, some}
use facturify.Base.Result.{ok, >>=-eq-ok}
use facturify.Js.Text.{Text, includes, trim}
use facturify.Js.Text.Laws.{eq_of_text_eq, text_eq_refl}
use facturify.Js.Number.{Num, frac, is_finite, is_integer, lt_num, le_num, floor_ℕ}
use facturify.Js.Value.{to_text}
use facturify.Backoff.{min_ticket_delay_ms, max_ticket_delay_ms, calculate_ticket_backoff_delay}
use facturify.Backoff.Bounds.{ticket_backoff_range}
use facturify.Ticket.{
  pending, TicketPollingContext, TicketPollingDecision, sanitize_retry_after_ms,
  sunat_status_in_process, cap_attempts, cap_total, fails, no_positive_integer, jitter_or_zero,
  or_delay, validate_context, decide, evaluate,
}

floor-ge-one : (x : Num) → no_positive_integer x ≡ false → 1 ≤ floor_ℕ x
unfolding is_integer lt_num floor_ℕ
floor-ge-one (frac n d) h = (le-div_iff_mul-le (omega arith)).1 (ground arith)
floor-ge-one _ h = ground arith

sanitize-bounds :
    (r : Option Num) (delay : ℕ)
    → min_ticket_delay_ms ≤ delay
    → delay ≤ max_ticket_delay_ms
    → (min_ticket_delay_ms ≤ or_delay (sanitize_retry_after_ms r) delay)
      × (or_delay (sanitize_retry_after_ms r) delay ≤ max_ticket_delay_ms)
unfolding sanitize_retry_after_ms
sanitize-bounds none delay h k = (h, k)
sanitize-bounds (some x) delay h k = ground arith

cap_attempts-pos : (x : Option Num) → fails no_positive_integer x ≡ false → 1 ≤ cap_attempts x
cap_attempts-pos none h = omega arith
cap_attempts-pos (some x) h = omega (arith, floor-ge-one x h)

cap_attempts-le : (x : Option Num) → cap_attempts x ≤ 20
cap_attempts-le none = omega arith
cap_attempts-le (some x) = omega arith

module _ (show : Num → Text) (c : TicketPollingContext) where
  -- What `validateContext` has checked.
  record IsValid : Type 0 where
    attempt : no_positive_integer c.attempt ≡ false
    max_attempts : fails no_positive_integer c.max_attempts ≡ false
    elapsed : is_finite c.elapsed_ms ≡ true

  validate_context-IsValid : validate_context show c ≡ ok tt → IsValid
  unfolding validate_context
  validate_context-IsValid e = ground arith

  attempts-pos : IsValid → (1 ≤ floor_ℕ c.attempt) × (1 ≤ cap_attempts c.max_attempts)
  attempts-pos v =
      (floor-ge-one c.attempt v.attempt, cap_attempts-pos c.max_attempts v.max_attempts)

  validated : {d : TicketPollingDecision} → evaluate show c ≡ ok d → IsValid × (decide show c ≡ d)
  unfolding evaluate
  validated e =
      let (u, checked, decided) = >>=-eq-ok (validate_context show c) _ e in
      (validate_context-IsValid checked, ground arith)

  -- When the polling goes on: SUNAT answers that the ticket is in process, and neither the
  -- attempts nor the time are used up.
  abbrev pub GoesOn : Type 0
  GoesOn =
      (trim (to_text show c.sunat_status_code) ≡ sunat_status_in_process)
      × (floor_ℕ c.attempt < cap_attempts c.max_attempts)
      × (le_num (cap_total c.max_total_ms) c.elapsed_ms ≡ false)

  decide-pending_iff : ((decide show c).outcome ≡ pending) ↔ GoesOn
  unfolding decide includes
  decide-pending_iff = ground (
    arith,
    eq_of_text_eq (trim (to_text show c.sunat_status_code)) sunat_status_in_process,
    text_eq_refl sunat_status_in_process,
  )

  -- The delay that a decision to go on names.
  planned_delay : ℕ
  planned_delay =
      or_delay (sanitize_retry_after_ms c.retry_after_ms)
        (calculate_ticket_backoff_delay (floor_ℕ c.attempt) (jitter_or_zero c.jitter))

  planned_delay-bounds :
      (min_ticket_delay_ms ≤ planned_delay) × (planned_delay ≤ max_ticket_delay_ms)
  unfolding planned_delay
  planned_delay-bounds =
      let range = ticket_backoff_range (floor_ℕ c.attempt) (jitter_or_zero c.jitter) in
      sanitize-bounds c.retry_after_ms _ range.0 range.1

  decide-delay :
      ((decide show c).outcome ≡ pending)
      → ((decide show c).retryable ≡ true) × ((decide show c).next_delay_ms ≡ some planned_delay)
  unfolding decide planned_delay
  decide-delay h = ground arith

  decide-stop :
      ((decide show c).outcome ≢ pending)
      → ((decide show c).retryable ≡ false) × ((decide show c).next_delay_ms ≡ none)
  unfolding decide
  decide-stop h = ground arith

  decide_attempts :
      ((decide show c).attempt ≡ floor_ℕ c.attempt)
      × ((decide show c).max_attempts ≡ cap_attempts c.max_attempts)
  unfolding decide
  decide_attempts = ground arith

  -- What every decision keeps to.
  pub record IsSound (d : TicketPollingDecision) : Type 0 where
    pub attempt_pos : 1 ≤ d.attempt
    pub max_attempts_pos : 1 ≤ d.max_attempts
    pub max_attempts_capped : d.max_attempts ≤ 20
    pub goes_on : (d.outcome ≡ pending) ↔ GoesOn
    pub attempts_left : d.outcome ≡ pending → d.attempt < d.max_attempts
    pub delayed :
        d.outcome ≡ pending
        → (d.retryable ≡ true)
          × ((ms : ℕ) × (d.next_delay_ms ≡ some ms)
              × (min_ticket_delay_ms ≤ ms)
              × (ms ≤ max_ticket_delay_ms))
    pub final : d.outcome ≢ pending → (d.retryable ≡ false) × (d.next_delay_ms ≡ none)

  decide-IsSound : IsValid → IsSound (decide show c)
  decide-IsSound v =
      let (at, mx) = decide_attempts in
      record {
        attempt_pos = rw at (attempts-pos v).0;
        max_attempts_pos = rw mx (attempts-pos v).1;
        max_attempts_capped = rw mx (cap_attempts-le c.max_attempts);
        goes_on = decide-pending_iff;
        attempts_left = λ h. rw (at, mx) (decide-pending_iff.0 h).1;
        delayed = λ h.
            let (retry, delay) = decide-delay h in
            (retry, (planned_delay, delay, planned_delay-bounds.0, planned_delay-bounds.1));
        final = decide-stop;
      }

  -- Every decision that `evaluate` returns asks for another query exactly when SUNAT reports the
  -- ticket as in process and attempts and time are left, then with a delay of 2 to 120 seconds; all
  -- other decisions are final and have no delay. At most 20 attempts are ever allowed.
  pub evaluate-IsSound : {d : TicketPollingDecision} → evaluate show c ≡ ok d → IsSound d
  evaluate-IsSound e = let (v, decided) = validated e in rw decided at (decide-IsSound v)
