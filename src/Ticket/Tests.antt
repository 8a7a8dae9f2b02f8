-- ===== src/Ticket/Tests.antt =====
-- Ticket polling and its delays at concrete inputs.
use facturify.Base.{◌≡◌, refl, true, none, some}
use facturify.Base.Result.{ok, err}
use facturify.Js.Text.{Text, codes, trim, includes}
use facturify.Js.Number.{Num, frac, of_ℕ, le_num, min_num, floor_ℕ}
use facturify.Js.Value.{string, to_text}
use facturify.Backoff.{calculate_ticket_backoff_delay}
use facturify.Ticket.{
  TicketPollingContext, TicketPollingDecision, pending, exhausted, bad_attempt,
  sanitize_retry_after_ms, validate_context, decide, evaluate, stop,
}
use facturify.Ticket.Laws.{IsSound, evaluate-IsSound}

abbrev no_digits : Num → Text
no_digits x = codes "?"

abbrev asked : Num → Num → TicketPollingContext
asked attempt elapsed = record {
  attempt = attempt;
  max_attempts = some (of_ℕ 50);
  sunat_status_code = string (codes " 98 ");
  elapsed_ms = elapsed;
  max_total_ms = none;
  retry_after_ms = none;
  jitter = some (frac 1 1);
}

abbrev wait_12s : TicketPollingDecision
wait_12s = record {
  outcome = pending;
  retryable = true;
  next_delay_ms = some 12000;
  attempt = 3;
  max_attempts = 20;
}

third_attempt : evaluate no_digits (asked (of_ℕ 3) (frac 9001 1)) ≡ ok wait_12s
unfolding evaluate validate_context decide includes le_num min_num floor_ℕ trim to_text
    sanitize_retry_after_ms calculate_ticket_backoff_delay
third_attempt = refl

last_attempt : evaluate no_digits (asked (of_ℕ 20) (of_ℕ 5)) ≡ ok (stop 20 20 exhausted)
unfolding evaluate validate_context decide includes le_num min_num floor_ℕ trim to_text
last_attempt = refl

half_attempt : evaluate no_digits (asked (frac 3 1) (of_ℕ 5)) ≡ err bad_attempt
unfolding evaluate validate_context
half_attempt = refl

evaluate-IsSound_example : IsSound no_digits (asked (of_ℕ 3) (frac 9001 1)) wait_12s
evaluate-IsSound_example = evaluate-IsSound no_digits (asked (of_ℕ 3) (frac 9001 1)) third_attempt
