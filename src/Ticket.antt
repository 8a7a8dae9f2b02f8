-- ===== src/Ticket.antt =====
-- When a ticket of SUNAT is asked for again: src/sunat-ticket-policy. Fields of type `number` are
-- numbers, the status code is a value of any type, and the digits of a number that is given for it
-- are an argument.
pub mod Laws
mod Tests
use facturify.Base.{
  ℕ, Bool, true, false, not, ◌&&◌, ◌||◌, Option, none, some, List, [], ◌∷◌, min, max, leb,
  if◌then◌else◌,
}
use facturify.Base.Result.{Result, ok, err, ◌>>=◌, ◌>>◌, throw_if}
use facturify.Js.Text.{Text, codes, text_eq, includes, trim}
use facturify.Js.Number.{
  Num, of_ℕ, is_finite, is_integer, lt_num, le_num, min_num, floor_ℕ, round_ℕ,
}
use facturify.Js.Value.{Value, is_nullish, to_text}
use facturify.Backoff.{
  min_ticket_delay_ms, max_ticket_delay_ms, clamp_ticket_delay, calculate_ticket_backoff_delay,
}

abbrev pub default_ticket_max_attempts : ℕ
default_ticket_max_attempts = 20

abbrev pub absolute_max_ticket_attempts : ℕ
absolute_max_ticket_attempts = 20

abbrev pub default_ticket_max_total_ms : ℕ
default_ticket_max_total_ms = 1800000

abbrev pub absolute_max_ticket_total_ms : ℕ
absolute_max_ticket_total_ms = 1800000

abbrev pub sunat_status_in_process : Text
sunat_status_in_process = codes "98"

abbrev pub sunat_status_terminal_with_cdr : List Text
sunat_status_terminal_with_cdr = codes "0" ∷ codes "00" ∷ codes "99" ∷ []

pub data TicketPollingOutcome : Type 0 where
  pending process_cdr exhausted terminal_failure : TicketPollingOutcome

-- `none` stands for `undefined` and for `null`.
pub record TicketPollingContext : Type 0 where
  pub attempt : Num
  pub max_attempts : Option Num
  pub sunat_status_code : Value
  pub elapsed_ms : Num
  pub max_total_ms : Option Num
  pub retry_after_ms : Option Num
  pub jitter : Option Num

pub record TicketPollingDecision : Type 0 where
  pub outcome : TicketPollingOutcome
  pub retryable : Bool
  pub next_delay_ms : Option ℕ
  pub attempt : ℕ
  pub max_attempts : ℕ

-- The messages of `BadRequestException`.
pub data TicketError : Type 0 where
  bad_attempt bad_max_attempts bad_elapsed bad_max_total bad_jitter code_required : TicketError

-- `sanitizeRetryAfterMs`
unfoldable pub sanitize_retry_after_ms : Option Num → Option ℕ
unfolding is_finite le_num round_ℕ
sanitize_retry_after_ms none = none
sanitize_retry_after_ms (some num) =
    if not (is_finite num) || le_num num (of_ℕ 0)
    then none
    else some (clamp_ticket_delay (round_ℕ num))

-- A test of an optional field, which passes where the field is absent.
abbrev pub fails : (Num → Bool) → Option Num → Bool
fails test none = false
fails test (some x) = test x

-- `!Number.isInteger(x) || x < 1`
abbrev pub no_positive_integer : Num → Bool
no_positive_integer x = not (is_integer x) || lt_num x (of_ℕ 1)

abbrev is_empty : Text → Bool
is_empty [] = true
is_empty (_ ∷ _) = false

-- `configuredMaxAttempts` and `configuredMaxTotalMs`
abbrev cap_attempts : Option Num → ℕ
cap_attempts none = default_ticket_max_attempts
cap_attempts (some x) = min (floor_ℕ x) absolute_max_ticket_attempts

abbrev cap_total : Option Num → Num
cap_total none = of_ℕ default_ticket_max_total_ms
cap_total (some x) = min_num x (of_ℕ absolute_max_ticket_total_ms)

-- `context.jitter ?? 0`
abbrev jitter_or_zero : Option Num → Num
jitter_or_zero none = of_ℕ 0
jitter_or_zero (some x) = x

-- `boundedRetryAfter !== null ? boundedRetryAfter : …`
abbrev or_delay : Option ℕ → ℕ → ℕ
or_delay none delay = delay
or_delay (some bounded) delay = bounded

-- A decision that ends the polling.
abbrev pub stop : ℕ → ℕ → TicketPollingOutcome → TicketPollingDecision
stop attempt max_attempts o = record {
  outcome = o;
  retryable = false;
  next_delay_ms = none;
  attempt = attempt;
  max_attempts = max_attempts;
}

module _ (show : Num → Text) where
  unfoldable pub validate_context : TicketPollingContext → Result TicketError (Unit {0})
  unfolding is_finite is_integer le_num trim to_text is_nullish
  validate_context c = do
    throw_if (no_positive_integer c.attempt) bad_attempt
    throw_if (fails no_positive_integer c.max_attempts) bad_max_attempts
    throw_if (not (is_finite c.elapsed_ms) || lt_num c.elapsed_ms (of_ℕ 0)) bad_elapsed
    throw_if (fails (λ x. not (is_finite x) || le_num x (of_ℕ 0)) c.max_total_ms) bad_max_total
    throw_if (fails (λ x. not (is_finite x) || lt_num x (of_ℕ 0) || lt_num (of_ℕ 1) x) c.jitter)
        bad_jitter
    throw_if (is_nullish c.sunat_status_code || is_empty (trim (to_text show c.sunat_status_code)))
        code_required

  -- The decision on a context that was validated.
  unfoldable pub decide : TicketPollingContext → TicketPollingDecision
  decide c =
      let attempt = floor_ℕ c.attempt in
      let max_attempts = cap_attempts c.max_attempts in
      let max_total_ms = cap_total c.max_total_ms in
      let normalized_status = trim (to_text show c.sunat_status_code) in
      if includes sunat_status_terminal_with_cdr normalized_status
      then stop attempt max_attempts process_cdr
      else if text_eq normalized_status sunat_status_in_process
      then if leb max_attempts attempt || le_num max_total_ms c.elapsed_ms
        then stop attempt max_attempts exhausted
        else record {
          outcome = pending;
          retryable = true;
          next_delay_ms = some (
              or_delay (sanitize_retry_after_ms c.retry_after_ms)
                (calculate_ticket_backoff_delay attempt (jitter_or_zero c.jitter)));
          attempt = attempt;
          max_attempts = max_attempts;
        }
      else stop attempt max_attempts terminal_failure

  unfoldable pub evaluate : TicketPollingContext → Result TicketError TicketPollingDecision
  evaluate c = do validate_context c; ok (decide c)
