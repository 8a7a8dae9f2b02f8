-- ===== src/Delivery/Laws.antt =====
-- What a decision on a delivery says, for every context.
use native.Mathlib.Nat.{le-div_iff_mul-le}
use facturify.Base.{ℕ, suc, ◌≤◌, ◌<◌, ◌≡◌, ◌≢◌, ◌↔◌, ◌⊎◌, arith, true, false, Option, none, some}
use facturify.Base.Result.{ok, >>=-eq-ok}
use facturify.Js.Text.{Text}
use facturify.Js.Number.{Num, frac}
use facturify.Backoff.{max_retry_delay_ms}
use facturify.Backoff.Bounds.{webhook_backoff_range}
use facturify.Delivery.{
  max_webhook_attempts, success, retry, RetryAfter, absent, seconds, text, WebhookDeliveryContext,
  WebhookDeliveryDecision, parse_retry_after, is_retryable_status_code, is_successful_status_code,
  status_is, is_set, read_attempt, read_max_attempts, read_jitter, read_status_code, next_delay,
  decide, evaluate,
}

-- What `parseRetryAfter` returns never exceeds the limit of 15 minutes.
pub parse_retry_after-le :
    (parse_date : Text → Option ℕ) (now_ms : ℕ) (r : RetryAfter) {ms : ℕ}
    → parse_retry_after parse_date now_ms r ≡ some ms
    → ms ≤ max_retry_delay_ms
unfolding parse_retry_after
parse_retry_after-le parse_date now_ms absent h = ground arith
parse_retry_after-le parse_date now_ms (seconds x) h = ground arith
parse_retry_after-le parse_date now_ms (text s) h = ground arith

read_attempt-pos : (x : Num) {n : ℕ} → read_attempt x ≡ ok n → 1 ≤ n
unfolding read_attempt
read_attempt-pos (frac n d) h =
    let pos = (le-div_iff_mul-le {k = suc d} {x = 1} {y = n} (omega arith)).1 in ground (arith, pos)
read_attempt-pos _ h = ground arith

read_max_attempts-range : (x : Option Num) {n : ℕ} → read_max_attempts x ≡ ok n → (1 ≤ n) × (n ≤ 5)
unfolding read_max_attempts
read_max_attempts-range none h = ground arith
read_max_attempts-range (some (frac n d)) h =
    let pos = (le-div_iff_mul-le {k = suc d} {x = 1} {y = n} (omega arith)).1 in ground (arith, pos)
read_max_attempts-range (some _) h = ground arith

module _ (parse_date : Text → Option ℕ) (clock : ℕ) where
  next_delay-le :
      (c : WebhookDeliveryContext) (attempt : ℕ) (jitter : Num)
      → next_delay parse_date clock c attempt jitter ≤ max_retry_delay_ms
  unfolding next_delay
  next_delay-le c attempt jitter =
      let range = webhook_backoff_range attempt jitter in ground (arith, range)

  -- An error after which the policy tries again.
  abbrev pub IsRetryable : WebhookDeliveryContext → Option ℕ → Type 0
  IsRetryable c status =
      ((c.is_timeout ≡ true) ⊎ (c.is_network_error ≡ true))
      ⊎ ((is_set c.sanitized_network_error ≡ true)
          ⊎ (status_is is_retryable_status_code status ≡ true))

  -- What a decision says about an attempt, the number of attempts allowed and the status.
  pub record Decided (c : WebhookDeliveryContext) (attempt max_attempts : ℕ) (status : Option ℕ)
      (d : WebhookDeliveryDecision) : Type 0 where
    pub succeeded : (d.outcome ≡ success) ↔ (status_is is_successful_status_code status ≡ true)
    pub retried : (d.outcome ≡ retry) ↔ (
        (status_is is_successful_status_code status ≡ false)
        × IsRetryable c status
        × (attempt < max_attempts))
    pub delayed :
        d.outcome ≡ retry
        → (d.retryable ≡ true)
          × ((ms : ℕ) × (d.next_delay_ms ≡ some ms) × (ms ≤ max_retry_delay_ms))
    pub final : d.outcome ≢ retry → (d.retryable ≡ false) × (d.next_delay_ms ≡ none)
    pub counted : (d.attempt ≡ attempt) × (d.max_attempts ≡ max_attempts)

  decide-Decided :
      (c : WebhookDeliveryContext) (attempt max_attempts : ℕ) (jitter : Num) (status : Option ℕ)
      → Decided c attempt max_attempts status
          (decide parse_date clock c attempt max_attempts jitter status)
  unfolding decide
  decide-Decided c attempt max_attempts jitter status = record {
    succeeded = ground arith;
    retried = ground arith;
    delayed = λ h. (
      ground arith,
      (next_delay parse_date clock c attempt jitter, ground arith, next_delay-le c attempt jitter),
    );
    final = λ h. ground arith;
    counted = ground arith;
  }

  -- Every decision that `evaluate` returns is about an attempt from 1 on and 1 to 5 allowed
  -- attempts. It is a success exactly for a status from 200 to 299, and another attempt follows
  -- exactly when there was no success, the error is a timeout, a network error or a retryable
  -- status, and attempts are left; its delay is at most 15 minutes. All else is final.
  pub evaluate-Decided :
      (c : WebhookDeliveryContext) {d : WebhookDeliveryDecision}
      → evaluate parse_date clock c ≡ ok d
      → (attempt : ℕ) × (max_attempts : ℕ) × (status : Option ℕ) × (read_attempt c.attempt
          ≡ ok attempt)
        × (read_max_attempts c.max_attempts ≡ ok max_attempts)
        × (read_status_code c.status_code ≡ ok status)
        × (1 ≤ attempt)
        × (1 ≤ max_attempts)
        × (max_attempts ≤ max_webhook_attempts)
        × Decided c attempt max_attempts status d
  unfolding evaluate
  evaluate-Decided c e =
      let (attempt, read_a, e₁) = >>=-eq-ok (read_attempt c.attempt) _ e in
      let (max_attempts, read_m, e₂) = >>=-eq-ok (read_max_attempts c.max_attempts) _ e₁ in
      let (jitter, read_j, e₃) = >>=-eq-ok (read_jitter c.jitter) _ e₂ in
      let (status, read_s, e₄) = >>=-eq-ok (read_status_code c.status_code) _ e₃ in
      let range = read_max_attempts-range c.max_attempts read_m in
      let decided : decide parse_date clock c attempt max_attempts jitter status ≡ _ =
        ground arith in
      (
        attempt,
        max_attempts,
        status,
        read_a,
        read_m,
        read_s,
        read_attempt-pos c.attempt read_a,
        range.0,
        range.1,
        rw decided at (decide-Decided c attempt max_attempts jitter status),
      )
