-- ===== src/Delivery.antt =====
-- The retry policy of webhook deliveries: src/webhook-policy. The clock and `Date.parse` are
-- arguments: milliseconds since 1970, where an earlier date counts as 0.
pub mod Laws
mod Tests
use facturify.Base.{
  ℕ, ◌+◌, ◌-◌, ◌*◌, ◌^◌, Bool, true, false, not, ◌&&◌, ◌||◌, Option, none, some, List, [], ◌∷◌, min,
  leb, ltb, ◌==◌, if◌then◌else◌, any, all,
}
use facturify.Base.Result.{Result, ok, err, ◌>>=◌, ◌>>◌, throw_if}
use facturify.Js.Text.{Text, trim, is_digit}
use facturify.Js.Number.{Num, of_ℕ, is_finite, is_integer, lt_num, floor_ℕ, round_ℕ, times_ℕ}
use facturify.Backoff.{max_retry_delay_ms, calculate_exponential_backoff}

abbrev pub max_webhook_attempts : ℕ
max_webhook_attempts = 5

abbrev pub retryable_http_status_codes : List ℕ
retryable_http_status_codes = 408 ∷ 425 ∷ 429 ∷ 500 ∷ 502 ∷ 503 ∷ 504 ∷ []

pub data WebhookDeliveryOutcome : Type 0 where
  success retry terminal_failure : WebhookDeliveryOutcome

-- The header Retry-After, as it was read.
pub data RetryAfter : Type 0 where
  absent : RetryAfter
  seconds : Num → RetryAfter
  text : Text → RetryAfter

pub record WebhookDeliveryContext : Type 0 where
  pub attempt : Num
  pub max_attempts : Option Num
  pub status_code : Option Num
  pub is_timeout : Bool
  pub is_network_error : Bool
  pub sanitized_network_error : Option Text
  pub retry_after : RetryAfter
  pub jitter : Option Num
  pub now : Option ℕ

pub record WebhookDeliveryDecision : Type 0 where
  pub outcome : WebhookDeliveryOutcome
  pub retryable : Bool
  pub next_delay_ms : Option ℕ
  pub attempt : ℕ
  pub max_attempts : ℕ

-- The messages of `BadRequestException`.
pub data DeliveryError : Type 0 where
  bad_attempt bad_max_attempts bad_jitter bad_status_code : DeliveryError

-- `parseInt(digits, 10)`, exactly.
unfoldable pub digits_from : ℕ → Text → ℕ
digits_from n [] = n
digits_from n (c ∷ s) = digits_from (n * 10 + (c - b'0')) s

-- From here on a double is `Infinity`.
abbrev pub double_limit : ℕ
double_limit = 2 ^ 1024 - 2 ^ 970

abbrev pub is_empty : Text → Bool
is_empty [] = true
is_empty (_ ∷ _) = false

-- `referenceDateOrMs`, or the clock.
abbrev pub reference_ms : ℕ → Option ℕ → ℕ
reference_ms clock none = clock
reference_ms clock (some ms) = ms

abbrev date_delay : ℕ → Option ℕ → Option ℕ
date_delay now_ms none = none
date_delay now_ms (some target) =
    if leb target now_ms then some 0 else some (min (target - now_ms) max_retry_delay_ms)

unfoldable pub parse_retry_after : (Text → Option ℕ) → ℕ → RetryAfter → Option ℕ
parse_retry_after parse_date now_ms absent = none
parse_retry_after parse_date now_ms (seconds x) =
    if not (is_finite x) || lt_num x (of_ℕ 0)
    then none
    else some (min (round_ℕ (times_ℕ x 1000)) max_retry_delay_ms)
parse_retry_after parse_date now_ms (text s) =
    let trimmed = trim s in
    if is_empty trimmed
    then none
    else if all is_digit trimmed
    then if leb double_limit (digits_from 0 trimmed)
      then none
      else some (min (digits_from 0 trimmed * 1000) max_retry_delay_ms)
    else date_delay now_ms (parse_date trimmed)

-- `isRetryableStatusCode` and `isSuccessfulStatusCode`, on integers.
unfoldable pub is_retryable_status_code : ℕ → Bool
is_retryable_status_code code = any (λ c. c == code) retryable_http_status_codes

unfoldable pub is_successful_status_code : ℕ → Bool
is_successful_status_code code = leb 200 code && ltb code 300

-- A test of the status code, false where there is none.
abbrev pub status_is : (ℕ → Bool) → Option ℕ → Bool
status_is test none = false
status_is test (some code) = test code

abbrev pub is_set : Option Text → Bool
is_set none = false
is_set (some s) = not (is_empty (trim s))

-- The four values that `evaluate` takes from the context.
unfoldable pub read_attempt : Num → Result DeliveryError ℕ
unfolding is_integer lt_num floor_ℕ
read_attempt x = do throw_if (not (is_integer x) || lt_num x (of_ℕ 1)) bad_attempt; ok (floor_ℕ x)

unfoldable pub read_max_attempts : Option Num → Result DeliveryError ℕ
unfolding is_integer lt_num floor_ℕ
read_max_attempts none = ok max_webhook_attempts
read_max_attempts (some x) = do
  throw_if (not (is_integer x) || lt_num x (of_ℕ 1)) bad_max_attempts
  ok (min (floor_ℕ x) max_webhook_attempts)

unfoldable pub read_jitter : Option Num → Result DeliveryError Num
unfolding is_finite lt_num
read_jitter none = ok (of_ℕ 0)
read_jitter (some x) = do
  throw_if (not (is_finite x) || lt_num x (of_ℕ 0) || lt_num (of_ℕ 1) x) bad_jitter
  ok x

unfoldable pub read_status_code : Option Num → Result DeliveryError (Option ℕ)
unfolding is_integer lt_num floor_ℕ
read_status_code none = ok none
read_status_code (some x) = do
  throw_if (not (is_integer x) || lt_num x (of_ℕ 100) || lt_num (of_ℕ 599) x) bad_status_code
  ok (some (floor_ℕ x))

-- A decision with no further attempt.
abbrev pub stop : ℕ → ℕ → WebhookDeliveryOutcome → WebhookDeliveryDecision
stop attempt max_attempts o = record {
  outcome = o;
  retryable = false;
  next_delay_ms = none;
  attempt = attempt;
  max_attempts = max_attempts;
}

module _ (parse_date : Text → Option ℕ) (clock : ℕ) where
  -- `nextDelayMs` of a decision to retry. A delay that was read is never negative.
  unfoldable pub next_delay : WebhookDeliveryContext → ℕ → Num → ℕ
  next_delay c attempt jitter =
      elim (parse_retry_after parse_date (reference_ms clock c.now) c.retry_after) [
        | some ms ↦ min ms max_retry_delay_ms
        | none ↦ calculate_exponential_backoff attempt jitter
      ]

  -- The decision once the context is read.
  unfoldable pub decide : WebhookDeliveryContext → ℕ → ℕ → Num → Option ℕ → WebhookDeliveryDecision
  decide c attempt max_attempts jitter status_code =
      let is_network_error = c.is_network_error || is_set c.sanitized_network_error in
      let is_retryable_error =
        c.is_timeout || is_network_error || status_is is_retryable_status_code status_code in
      if status_is is_successful_status_code status_code
      then stop attempt max_attempts success
      else if not is_retryable_error || leb max_attempts attempt
      then stop attempt max_attempts terminal_failure
      else record {
        outcome = retry;
        retryable = true;
        next_delay_ms = some (next_delay c attempt jitter);
        attempt = attempt;
        max_attempts = max_attempts;
      }

  unfoldable pub evaluate : WebhookDeliveryContext → Result DeliveryError WebhookDeliveryDecision
  evaluate c = do
    attempt ← read_attempt c.attempt
    max_attempts ← read_max_attempts c.max_attempts
    jitter ← read_jitter c.jitter
    status_code ← read_status_code c.status_code
    ok (decide c attempt max_attempts jitter status_code)
