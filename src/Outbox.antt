-- ===== src/Outbox.antt =====
-- What becomes of a claimed event after its webhooks were called (src/outbox/outbox.service.ts): the
-- body of the loop of `processBatch` after the claim, and `reschedule`. The result of `dispatch` is
-- an argument, and the time, which stands still in the loop; the statements on the database are in Table and Batch.
pub mod Laws
pub mod Table
pub mod Rows
pub mod Batch
pub mod Claims
pub mod Settling
pub mod Publishing
mod Tests
mod BatchTests
use facturify.Base.{
  ℕ, ◌-◌, ◌*◌, ◌^◌, Bool, true, false, not, ◌||◌, Option, none, some, List, [], ◌∷◌, all, any,
  filter, min, max, leb, if◌then◌else◌,
}
use facturify.Base.Result.{Result, ok, err, ◌>>=◌}
use facturify.Js.Text.{Text, codes, text_eq}
use facturify.Js.Number.{Num, of_ℕ}
use facturify.Delivery.{
  RetryAfter, absent, text, WebhookDeliveryContext, WebhookDeliveryDecision, DeliveryError,
  evaluate,
}

pub data DeliveryStatus : Type 0 where
  success failed pending_delivery : DeliveryStatus

-- What is used of a `WebhookDeliveryLog`.
pub record WebhookDeliveryLog : Type 0 where
  pub status : DeliveryStatus
  pub status_code : Option Num
  pub error : Option Text
  pub retry_after : Option Text

-- The status, and the milliseconds until `nextAttemptAt` where it is set.
pub data EventUpdate : Type 0 where
  completed : EventUpdate
  pending dead : ℕ → EventUpdate

abbrev pub is_success : WebhookDeliveryLog → Bool
is_success d = elim d.status [ success ↦ true | _ ↦ false ]

-- `delivery.error === name`
abbrev is_error : Option Text → Text → Bool
is_error none name = false
is_error (some e) name = text_eq e name

abbrev header_of : Option Text → RetryAfter
header_of none = absent
header_of (some s) = text s

unfoldable pub context_of : ℕ → ℕ → WebhookDeliveryLog → WebhookDeliveryContext
unfolding text_eq
context_of attempt max_attempts d = record {
  attempt = of_ℕ attempt;
  max_attempts = some (of_ℕ max_attempts);
  status_code = d.status_code;
  is_timeout = is_error d.error (codes "TIMEOUT");
  is_network_error = is_error d.error (codes "NETWORK_ERROR");
  sanitized_network_error = none;
  retry_after = header_of d.retry_after;
  jitter = some (of_ℕ 0);
  now = none;
}

-- `decision!.nextDelayMs ?? 0`
abbrev pub delay_of : WebhookDeliveryDecision → ℕ
delay_of d = elim d.next_delay_ms [ none ↦ 0 | some ms ↦ ms ]

unfoldable pub longest_delay : List WebhookDeliveryDecision → ℕ
longest_delay [] = 0
longest_delay (d ∷ ds) = max (delay_of d) (longest_delay ds)

abbrev pub is_none : List WebhookDeliveryDecision → Bool
is_none [] = true
is_none (_ ∷ _) = false

-- `delay || undefined`
abbrev pub or_undefined : ℕ → Option ℕ
or_undefined n = if leb n 0 then none else some n

abbrev pub any_retryable : List WebhookDeliveryDecision → Bool
any_retryable = any (λ d. d.retryable)

abbrev pub delay_or_backoff : Option ℕ → ℕ → ℕ
delay_or_backoff (some ms) attempt = ms
delay_or_backoff none attempt = min (15 * 60000) (1000 * 2 ^ (attempt - 1))

unfoldable pub reschedule : ℕ → ℕ → Bool → Option ℕ → EventUpdate
reschedule attempt max_attempts retryable policy_delay =
    let delay = delay_or_backoff policy_delay attempt in
    if not retryable || leb max_attempts attempt then dead delay else pending delay

module _ (parse_date : Text → Option ℕ) (clock : ℕ) where
  -- The decisions on the deliveries that did not succeed; there are none without a policy.
  unfoldable pub decisions_on :
      Bool → ℕ → ℕ → List WebhookDeliveryLog → Result DeliveryError (List WebhookDeliveryDecision)
  unfolding context_of evaluate
  decisions_on false attempt max_attempts ds = ok []
  decisions_on true attempt max_attempts [] = ok []
  decisions_on true attempt max_attempts (d ∷ ds) = do
    decision ← evaluate parse_date clock (context_of attempt max_attempts d)
    decisions ← decisions_on true attempt max_attempts ds
    ok (decision ∷ decisions)

  unfoldable pub after_decisions :
      ℕ → ℕ → Result DeliveryError (List WebhookDeliveryDecision) → EventUpdate
  unfolding reschedule longest_delay
  after_decisions attempt max_attempts (err e) = reschedule attempt max_attempts true none
  after_decisions attempt max_attempts (ok decisions) =
      reschedule attempt max_attempts (is_none decisions || any_retryable decisions)
        (or_undefined (longest_delay decisions))

  -- The update of an event that was claimed for an attempt; none stands for an exception of `dispatch`.
  unfoldable pub settle : Bool → ℕ → ℕ → Option (List WebhookDeliveryLog) → EventUpdate
  unfolding decisions_on after_decisions
  settle has_policy attempt max_attempts none = reschedule attempt max_attempts true none
  settle has_policy attempt max_attempts (some deliveries) =
      if all is_success deliveries
      then completed
      else after_decisions attempt max_attempts (
          decisions_on has_policy attempt max_attempts
            (filter (λ d. not (is_success d)) deliveries))
