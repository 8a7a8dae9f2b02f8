-- ===== src/Delivery/Tests.antt =====
-- The delivery policy and its delays at concrete inputs.
use facturify.Base.{ℕ, ◌≤◌, ◌≡◌, refl, true, false, Option, none, some}
use facturify.Base.Result.{ok, err}
use facturify.Js.Text.{Text, codes, trim, is_digit}
use facturify.Js.Number.{Num, frac, of_ℕ, is_finite, is_integer, lt_num, floor_ℕ, round_ℕ, times_ℕ}
use facturify.Backoff.{calculate_exponential_backoff}
use facturify.Delivery.{
  RetryAfter, absent, text, WebhookDeliveryContext, WebhookDeliveryDecision, retry,
  terminal_failure, bad_jitter, parse_retry_after, digits_from, read_attempt, read_max_attempts,
  read_jitter, read_status_code, is_retryable_status_code, is_successful_status_code, next_delay,
  decide, evaluate, stop, max_webhook_attempts,
}
use facturify.Delivery.Laws.{Decided, evaluate-Decided}

-- `Date.parse` that reads no date.
abbrev no_dates : Text → Option ℕ
no_dates s = none

abbrev failed_with : ℕ → RetryAfter → Num → WebhookDeliveryContext
failed_with code header jitter = record {
  attempt = of_ℕ 2;
  max_attempts = none;
  status_code = some (of_ℕ code);
  is_timeout = false;
  is_network_error = false;
  sanitized_network_error = none;
  retry_after = header;
  jitter = some jitter;
  now = none;
}

abbrev wait_7s : WebhookDeliveryDecision
wait_7s = record {
  outcome = retry;
  retryable = true;
  next_delay_ms = some 7000;
  attempt = 2;
  max_attempts = 5;
}

opened : Unit {0}
unfolding evaluate read_attempt read_max_attempts read_jitter read_status_code decide next_delay
    parse_retry_after digits_from is_retryable_status_code is_successful_status_code trim is_digit
    is_finite is_integer lt_num floor_ℕ round_ℕ times_ℕ calculate_exponential_backoff
opened = tt

header_wins : evaluate no_dates 0 (failed_with 503 (text (codes " 7 ")) (of_ℕ 0)) ≡ ok wait_7s
unfolding opened
header_wins = refl

backoff_with_jitter :
    evaluate no_dates 0 (failed_with 503 absent (frac 1 1))
    ≡ ok (record wait_7s { next_delay_ms = some 3000 })
unfolding opened
backoff_with_jitter = refl

not_found : evaluate no_dates 0 (failed_with 404 absent (of_ℕ 0)) ≡ ok (stop 2 5 terminal_failure)
unfolding opened
not_found = refl

jitter_above_one : evaluate no_dates 0 (failed_with 503 absent (of_ℕ 2)) ≡ err bad_jitter
unfolding opened
jitter_above_one = refl

seven_seconds : parse_retry_after no_dates 0 (text (codes " 7 ")) ≡ some 7000
unfolding opened
seven_seconds = refl

evaluate-Decided_example :
    (attempt : ℕ) × (max_attempts : ℕ) × (status : Option ℕ) × (read_attempt (of_ℕ 2) ≡ ok attempt)
    × (read_max_attempts none ≡ ok max_attempts)
    × (read_status_code (some (of_ℕ 503)) ≡ ok status)
    × (1 ≤ attempt)
    × (1 ≤ max_attempts)
    × (max_attempts ≤ max_webhook_attempts)
    × Decided no_dates 0
        (failed_with 503 (text (codes " 7 ")) (of_ℕ 0))
        attempt
        max_attempts
        status
        wait_7s
evaluate-Decided_example =
    evaluate-Decided no_dates 0 (failed_with 503 (text (codes " 7 ")) (of_ℕ 0)) header_wins
