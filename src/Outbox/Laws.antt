-- ===== src/Outbox/Laws.antt =====
-- An event is done, tried again after a bounded delay, or given up.
use facturify.Base.{
  ℕ, ◌≤◌, ◌<◌, ◌≡◌, ◌≢◌, ◌⊎◌, refl, subst, Bool, true, false, not, ◌||◌, Option, none, some, List,
  [], ◌∷◌, all, filter, leb, arith, Bool-cases, inl, inr,
}
use facturify.Base.Result.{ok, err, >>=-eq-ok, ok_inj, Result-cases}
use facturify.Js.Text.{Text}
use facturify.Backoff.{max_retry_delay_ms}
use facturify.Delivery.{
  WebhookDeliveryOutcome, WebhookDeliveryDecision, DeliveryError, retry, evaluate,
}
use facturify.Delivery.Laws.{evaluate-Decided}
use facturify.Outbox.{
  WebhookDeliveryLog, EventUpdate, completed, pending, dead, is_success, context_of, delay_of,
  longest_delay, is_none, any_retryable, delay_or_backoff, or_undefined, reschedule, decisions_on,
  after_decisions, settle,
}

retry-cases : (o : WebhookDeliveryOutcome) → (o ≡ retry) ⊎ (o ≢ retry)
retry-cases WebhookDeliveryOutcome.success = inr (λ e. cc)
retry-cases WebhookDeliveryOutcome.retry = inl refl
retry-cases WebhookDeliveryOutcome.terminal_failure = inr (λ e. cc)

-- The update after no success, by whether attempts are left and what was decided.
pub record IsRescheduled (attempt max_attempts : ℕ) (retryable : Bool) (update : EventUpdate)
    : Type 0 where
  pub delay : ℕ
  pub bounded : delay ≤ max_retry_delay_ms
  pub given_up : (max_attempts ≤ attempt) ⊎ (retryable ≡ false) → update ≡ dead delay
  pub tried_again : attempt < max_attempts → retryable ≡ true → update ≡ pending delay

reschedule-IsRescheduled :
    (attempt max_attempts : ℕ) (retryable : Bool) (policy_delay : Option ℕ)
    → delay_or_backoff policy_delay attempt ≤ max_retry_delay_ms
    → IsRescheduled attempt max_attempts retryable
        (reschedule attempt max_attempts retryable policy_delay)
unfolding reschedule
reschedule-IsRescheduled attempt max_attempts retryable policy_delay h = record {
  delay = delay_or_backoff policy_delay attempt;
  bounded = h;
  given_up = λ u. ground (arith, u);
  tried_again = λ left yes. ground (arith, left, yes);
}

backoff-le : (attempt : ℕ) → delay_or_backoff none attempt ≤ max_retry_delay_ms
backoff-le attempt = grind arith

or_undefined-le :
    (n attempt : ℕ)
    → n ≤ max_retry_delay_ms
    → delay_or_backoff (or_undefined n) attempt ≤ max_retry_delay_ms
or_undefined-le n attempt h = elim (Bool-cases (leb n 0)) [
  | inl e ↦ rw e (backoff-le attempt)
  | inr e ↦ rw e h
]

delay_of-Decided :
    (d : WebhookDeliveryDecision)
    → (d.outcome ≡ retry → (ms : ℕ) × (d.next_delay_ms ≡ some ms) × (ms ≤ max_retry_delay_ms))
    → (d.outcome ≢ retry → d.next_delay_ms ≡ none)
    → delay_of d ≤ max_retry_delay_ms
delay_of-Decided d delayed final = elim (retry-cases d.outcome) [
  | inl again ↦ let (ms, e, h) = delayed again in rw e h
  | inr over ↦ rw (final over) (omega arith)
]

module _ (parse_date : Text → Option ℕ) (clock : ℕ) where
  delay_of-le :
      (attempt max_attempts : ℕ) (l : WebhookDeliveryLog) {d : WebhookDeliveryDecision}
      → evaluate parse_date clock (context_of attempt max_attempts l) ≡ ok d
      → delay_of d ≤ max_retry_delay_ms
  delay_of-le attempt max_attempts l {d} h =
      let (_, _, _, _, _, _, _, _, _, decided) =
        evaluate-Decided parse_date clock (context_of attempt max_attempts l) h in
      delay_of-Decided d (λ e. (decided.delayed e).1) (λ e. (decided.final e).1)

  longest_delay-le :
      (has_policy : Bool) (attempt max_attempts : ℕ) (ls : List WebhookDeliveryLog)
      {ds : List WebhookDeliveryDecision}
      → decisions_on parse_date clock has_policy attempt max_attempts ls ≡ ok ds
      → longest_delay ds ≤ max_retry_delay_ms
  unfolding decisions_on longest_delay
  longest_delay-le false attempt max_attempts ls {ds} h =
      let same : [] ≡ ds = ok_inj h in
      subst (λ d. longest_delay d ≤ max_retry_delay_ms) same (omega arith)
  longest_delay-le true attempt max_attempts [] {ds} h =
      let same : [] ≡ ds = ok_inj h in
      subst (λ d. longest_delay d ≤ max_retry_delay_ms) same (omega arith)
  longest_delay-le true attempt max_attempts (l ∷ ls) {ds} h =
      let (d, one, h₁) =
        >>=-eq-ok (evaluate parse_date clock (context_of attempt max_attempts l)) _ h in
      let (rest, later, h₂) =
        >>=-eq-ok (decisions_on parse_date clock true attempt max_attempts ls) _ h₁ in
      let same : d ∷ rest ≡ ds = ok_inj h₂ in
      subst (λ d. longest_delay d ≤ max_retry_delay_ms) same
        (omega (
          arith,
          delay_of-le attempt max_attempts l one,
          longest_delay-le true attempt max_attempts ls later,
        ))

  -- What may be decided for deliveries that did not all succeed.
  abbrev pub Verdict : Bool → ℕ → ℕ → List WebhookDeliveryLog → Bool → Type 0
  Verdict has_policy attempt max_attempts ls retryable =
      ((e : DeliveryError) × (decisions_on parse_date clock has_policy attempt max_attempts ls
          ≡ err e)
        × (retryable ≡ true))
      ⊎ ((ds : List WebhookDeliveryDecision) × (decisions_on parse_date clock has_policy attempt
              max_attempts ls
            ≡ ok ds)
          × (retryable ≡ (is_none ds || any_retryable ds)))

  after-Verdict :
      (has_policy : Bool) (attempt max_attempts : ℕ) (ls : List WebhookDeliveryLog)
      → (retryable : Bool) × Verdict has_policy attempt max_attempts ls retryable
        × IsRescheduled attempt max_attempts retryable (
            after_decisions parse_date clock attempt max_attempts
              (decisions_on parse_date clock has_policy attempt max_attempts ls))
  unfolding after_decisions
  after-Verdict has_policy attempt max_attempts ls =
      elim (Result-cases (decisions_on parse_date clock has_policy attempt max_attempts ls)) [
        | inl (ds, e) ↦ (
          (is_none ds || any_retryable ds),
          inr (ds, e, refl),
          rw e (
              reschedule-IsRescheduled attempt max_attempts (is_none ds || any_retryable ds)
                (or_undefined (longest_delay ds))
                (or_undefined-le (longest_delay ds) attempt
                  (longest_delay-le has_policy attempt max_attempts ls e))),
        )
        | inr (x, e) ↦ (
          true,
          inl (x, e, refl),
          rw e (reschedule-IsRescheduled attempt max_attempts true none (backoff-le attempt)),
        )
      ]

  -- An event whose webhooks were called is completed if all deliveries succeeded. Else it is given up
  -- for good if its attempts are used up or none of the failed deliveries is to be retried, and waits
  -- for another attempt if attempts are left and one of them is, or no decision was reached; the delay
  -- is at most 15 minutes. An exception of the calls counts as a failure to be retried.
  pub settle-IsRescheduled :
      (has_policy : Bool) (attempt max_attempts : ℕ) (deliveries : Option (List WebhookDeliveryLog))
      → ((ls : List WebhookDeliveryLog) × (deliveries ≡ some ls)
          × (all is_success ls ≡ true)
          × (settle parse_date clock has_policy attempt max_attempts deliveries ≡ completed))
        ⊎ (((retryable : Bool) × (((deliveries ≡ none) × (retryable ≡ true))
              ⊎ ((ls : List WebhookDeliveryLog) × (deliveries ≡ some ls)
                  × (all is_success ls ≡ false)
                  × Verdict has_policy attempt max_attempts
                      (filter (λ d. not (is_success d)) ls)
                      retryable))
            × IsRescheduled attempt max_attempts retryable
                (settle parse_date clock has_policy attempt max_attempts deliveries)))
  unfolding settle
  settle-IsRescheduled has_policy attempt max_attempts none = inr (
    true,
    inl (refl, refl),
    reschedule-IsRescheduled attempt max_attempts true none (backoff-le attempt),
  )
  settle-IsRescheduled has_policy attempt max_attempts (some ls) =
      elim (Bool-cases (all is_success ls)) [
        | inl done ↦ inl (ls, refl, done, rw done refl)
        | inr not_done ↦
            let (retryable, verdict, is) =
              after-Verdict has_policy attempt max_attempts (filter (λ d. not (is_success d)) ls) in
            inr (retryable, inr (ls, refl, not_done, verdict), rw not_done is)
      ]
