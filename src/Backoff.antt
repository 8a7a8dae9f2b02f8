-- ===== src/Backoff.antt =====
-- The exponential delays of the two retry policies: `calculateTicketBackoffDelay` of
-- src/sunat-ticket-policy and `calculateExponentialBackoff` of src/webhook-policy. The attempt is an
-- integer, which both callers check before.
pub mod Bounds
use facturify.Base.{ℕ, suc, ◌+◌, ◌-◌, ◌*◌, ◌^◌, min, max, ◌&&◌, if◌then◌else◌}
use facturify.Js.Number.{
  Num, nan, infinity, frac, neg_frac, of_ℕ, is_finite, lt_num, min_num, max_num, round_ℕ,
}

-- `delay * (1 + x)` for a factor `x` between 0 and 1.
abbrev pub grow : ℕ → Num → Num
grow delay (frac n d) = frac (delay * (suc d + n)) d
grow delay x = of_ℕ delay

-- `Math.min(1, Math.max(0, jitter))`
unfoldable pub clamp_jitter : Num → Num
unfolding min_num max_num lt_num
clamp_jitter jitter = min_num (of_ℕ 1) (max_num (of_ℕ 0) jitter)

-- The delay with its jitter, which counts only if it is a finite number above 0.
unfoldable pub jittered : ℕ → Num → ℕ
unfolding is_finite lt_num round_ℕ clamp_jitter
jittered delay jitter =
    if is_finite jitter && lt_num (of_ℕ 0) jitter
    then round_ℕ (grow delay (clamp_jitter jitter))
    else delay

abbrev pub min_ticket_delay_ms : ℕ
min_ticket_delay_ms = 2000

abbrev pub max_ticket_delay_ms : ℕ
max_ticket_delay_ms = 120000

-- `Math.min(Math.max(x, MIN_TICKET_DELAY_MS), MAX_TICKET_DELAY_MS)`
abbrev pub clamp_ticket_delay : ℕ → ℕ
clamp_ticket_delay x = min (max x min_ticket_delay_ms) max_ticket_delay_ms

unfoldable pub calculate_ticket_backoff_delay : ℕ → Num → ℕ
unfolding jittered
calculate_ticket_backoff_delay attempt jitter =
    let exponent = max 1 attempt - 1 in
    clamp_ticket_delay (jittered (clamp_ticket_delay (min_ticket_delay_ms * 2 ^ exponent)) jitter)

abbrev pub initial_retry_delay_ms : ℕ
initial_retry_delay_ms = 1000

abbrev pub max_retry_delay_ms : ℕ
max_retry_delay_ms = 900000

unfoldable pub calculate_exponential_backoff : ℕ → Num → ℕ
unfolding jittered
calculate_exponential_backoff attempt jitter =
    let exponent = max 1 attempt - 1 in
    min (jittered (initial_retry_delay_ms * 2 ^ exponent) jitter) max_retry_delay_ms
