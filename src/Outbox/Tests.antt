-- ===== src/Outbox/Tests.antt =====
-- Events at concrete inputs.
use facturify.Base.{
  ℕ, ◌≡◌, ◌⊎◌, refl, Bool, true, false, not, Option, none, some, List, [], ◌∷◌, all, filter,
}
use facturify.Js.Text.{Text, codes, text_eq}
use facturify.Js.Number.{of_ℕ, is_finite, is_integer, lt_num, floor_ℕ}
use facturify.Delivery.{
  evaluate, decide, next_delay, read_attempt, read_max_attempts, read_jitter, read_status_code,
  parse_retry_after, is_retryable_status_code, is_successful_status_code,
}
use facturify.Backoff.{calculate_exponential_backoff}
use facturify.Outbox.{
  WebhookDeliveryLog, DeliveryStatus, completed, pending, dead, is_success, context_of,
  longest_delay, reschedule, decisions_on, after_decisions, settle,
}
use facturify.Outbox.Laws.{IsRescheduled, Verdict, settle-IsRescheduled}

abbrev pub no_dates : Text → Option ℕ
no_dates s = none

abbrev pub delivered : WebhookDeliveryLog
delivered = record {
  status = DeliveryStatus.success;
  status_code = some (of_ℕ 200);
  error = none;
  retry_after = none;
}

abbrev pub timed_out : WebhookDeliveryLog
timed_out = record {
  status = DeliveryStatus.failed;
  status_code = none;
  error = some (codes "TIMEOUT");
  retry_after = none;
}

abbrev refused : WebhookDeliveryLog
refused = record {
  status = DeliveryStatus.failed;
  status_code = some (of_ℕ 404);
  error = some (codes "HTTP_404");
  retry_after = none;
}

opened : Unit {0}
unfolding text_eq is_finite is_integer lt_num floor_ℕ evaluate decide next_delay read_attempt
    read_max_attempts read_jitter read_status_code parse_retry_after is_retryable_status_code
    is_successful_status_code calculate_exponential_backoff context_of longest_delay reschedule
    decisions_on after_decisions settle
opened = tt

done_run : settle no_dates 0 true 1 5 (some (delivered ∷ delivered ∷ [])) ≡ completed
unfolding opened
done_run = refl

timeout_run : settle no_dates 0 true 1 5 (some (delivered ∷ timed_out ∷ [])) ≡ pending 1000
unfolding opened
timeout_run = refl

refused_run : settle no_dates 0 true 1 5 (some (refused ∷ [])) ≡ dead 1000
unfolding opened
refused_run = refl

last_run : settle no_dates 0 true 5 5 none ≡ dead 16000
unfolding opened
last_run = refl

settle-IsRescheduled_example :
    ((ls : List WebhookDeliveryLog) × (some (delivered ∷ timed_out ∷ []) ≡ some ls)
      × (all is_success ls ≡ true)
      × (settle no_dates 0 true 1 5 (some (delivered ∷ timed_out ∷ [])) ≡ completed))
    ⊎ (((retryable : Bool) × (((some (delivered ∷ timed_out ∷ []) ≡ none) × (retryable ≡ true))
          ⊎ ((ls : List WebhookDeliveryLog) × (some (delivered ∷ timed_out ∷ []) ≡ some ls)
              × (all is_success ls ≡ false)
              × Verdict no_dates 0 true 1 5 (filter (λ d. not (is_success d)) ls) retryable))
        × IsRescheduled 1 5 retryable
            (settle no_dates 0 true 1 5 (some (delivered ∷ timed_out ∷ [])))))
settle-IsRescheduled_example =
    settle-IsRescheduled no_dates 0 true 1 5 (some (delivered ∷ timed_out ∷ []))
