-- ===== src/Throttle/Blocking.antt =====
-- When an identifier is blocked: after as many failures as the limit of the action, and for the
-- duration of the block after the last of them.
use facturify.Base.{
  ℕ, suc, ◌+◌, ◌-◌, ◌≤◌, ◌<◌, ◌≡◌, ◌≢◌, refl, ◌∙◌, ap, none, some, List, [], ◌∷◌, arith,
  if◌then◌else◌, length, ◌⊎◌, All, leb, map,
}
use facturify.Base.Result.{ok, err}
use facturify.Js.Text.{Text}
use facturify.Js.Map.{get}
use facturify.Js.Map.Laws.{get-set_self}
use facturify.Throttle.{
  AuthAction, login, bootstrap, ActionThrottleLimits, throttle_limits, ThrottleRecord, AuthThrottle,
  ThrottleError, rate_limited, prune_expired, ensure_capacity, fresh_record, bump_record, check_key,
  fail_key, generate_throttle_key, retry_after_seconds, assert_allowed, record_failure, Operation,
  failed, step, run,
}

-- The record after `n` failures from `t` to `u` within one window.
counted : ActionThrottleLimits → ℕ → ℕ → ℕ → ThrottleRecord
counted limits t n u = record {
  failure_count = n;
  first_failure_at = t;
  blocked_until = if leb limits.max_failures n then u + limits.block_duration_ms else 0;
  last_attempt_at = u;
}

bump_record-counted :
    (action : AuthAction) (t n u v : ℕ)
    → t ≤ u
    → v < t + (throttle_limits action).window_ms
    → bump_record (throttle_limits action) v (counted (throttle_limits action) t n u)
      ≡ counted (throttle_limits action) t (n + 1) v
unfolding bump_record counted
bump_record-counted login t n u v h k = ground arith
bump_record-counted bootstrap t n u v h k = ground arith

fresh_record-counted :
    (action : AuthAction) (t : ℕ) → fresh_record t ≡ counted (throttle_limits action) t 1 t
unfolding counted
fresh_record-counted login t = refl
fresh_record-counted bootstrap t = refl

ensure_capacity-secret :
    (s : AuthThrottle) (now : ℕ) → (ensure_capacity s now).hmac_secret ≡ s.hmac_secret
unfolding ensure_capacity prune_expired
ensure_capacity-secret s now = ground arith

fail_key-secret :
    (s : AuthThrottle) (action : AuthAction) (now later : ℕ) (key : Text)
    → (fail_key s action now later key).hmac_secret ≡ s.hmac_secret
unfolding fail_key
fail_key-secret s action now later key = ground (arith, ensure_capacity-secret s later)

fail_key-new :
    (s : AuthThrottle) (action : AuthAction) (now later : ℕ) (key : Text)
    → get key s.records ≡ none
    → get key (fail_key s action now later key).records ≡ some (fresh_record now)
unfolding fail_key
fail_key-new s action now later key h = rw (h, fail_key) (get-set_self key _ _)

fail_key-old :
    (s : AuthThrottle) (action : AuthAction) (now later : ℕ) (key : Text) {r : ThrottleRecord}
    → get key s.records ≡ some r
    → get key (fail_key s action now later key).records
      ≡ some (bump_record (throttle_limits action) now r)
unfolding fail_key
fail_key-old s action now later key h = rw (h, fail_key) (get-set_self key _ _)

-- The time of the last of some failures, each a reading of the clock with the later one.
abbrev pub last_time : ℕ → List (ℕ × ℕ) → ℕ
last_time u [] = u
last_time u ((now, later) ∷ ts) = last_time now ts

abbrev pub InWindow : ℕ → ℕ → List (ℕ × ℕ) → Type 0
InWindow t window ts = All (λ p. (t ≤ p.0) × (p.0 < t + window)) ts

module _ (wide : Text → Text) (hmac : Text → Text → Text) (action : AuthAction)
    (identifier : Text) where
  -- Failures of one identifier, one after the other.
  abbrev pub failures : List (ℕ × ℕ) → List Operation
  failures = map (λ p. failed action identifier p.0 p.1)

  step-failed :
      (s : AuthThrottle) (now later : ℕ) {key : Text}
      → generate_throttle_key wide hmac action identifier s.hmac_secret ≡ ok key
      → step wide hmac s (failed action identifier now later) ≡ fail_key s action now later key
  unfolding step record_failure
  step-failed s now later made = rw made

  run-failures :
      (s : AuthThrottle) (t n u : ℕ) (ts : List (ℕ × ℕ)) {key : Text}
      → generate_throttle_key wide hmac action identifier s.hmac_secret ≡ ok key
      → get key s.records ≡ some (counted (throttle_limits action) t n u)
      → t ≤ u
      → InWindow t (throttle_limits action).window_ms ts
      → ((run wide hmac s (failures ts)).hmac_secret ≡ s.hmac_secret)
        × (get key (run wide hmac s (failures ts)).records
            ≡ some (counted (throttle_limits action) t (n + length ts) (last_time u ts)))
  unfolding run
  run-failures s t n u [] made there le w =
      let same : n ≡ n + 0 = omega arith in
      (refl, there ∙ ap (λ k. some (counted (throttle_limits action) t k u)) same)
  run-failures s t n u ((now, later) ∷ ts) {key} made there le ((from, before), w) =
      let s' = fail_key s action now later key in
      let secret = fail_key-secret s action now later key in
      let counted' =
        fail_key-old s action now later key there
        ∙ ap some (bump_record-counted action t n u now le before) in
      let (kept, found) = run-failures s' t (n + 1) now ts (rw secret made) counted' from w in
      let same : n + 1 + length ts ≡ n + suc (length ts) = omega arith in
      rw (step-failed s now later made, run)
        (
          kept ∙ secret,
          found ∙ ap (λ k. some (counted (throttle_limits action) t k (last_time now ts))) same,
        )

  run-first :
      (s : AuthThrottle) (t later : ℕ) (ts : List (ℕ × ℕ)) {key : Text}
      → generate_throttle_key wide hmac action identifier s.hmac_secret ≡ ok key
      → get key s.records ≡ none
      → InWindow t (throttle_limits action).window_ms ts
      → ((run wide hmac s (failures ((t, later) ∷ ts))).hmac_secret ≡ s.hmac_secret)
        × (get key (run wide hmac s (failures ((t, later) ∷ ts))).records
            ≡ some (counted (throttle_limits action) t (suc (length ts)) (last_time t ts)))
  unfolding run
  run-first s t later ts {key} made new w =
      let s' = fail_key s action t later key in
      let secret = fail_key-secret s action t later key in
      let first = fail_key-new s action t later key new ∙ ap some (fresh_record-counted action t) in
      let (kept, found) = run-failures s' t 1 t ts (rw secret made) first (omega arith) w in
      let same : 1 + length ts ≡ suc (length ts) = omega arith in
      rw (step-failed s t later made, run)
        (
          kept ∙ secret,
          found ∙ ap (λ k. some (counted (throttle_limits action) t k (last_time t ts))) same,
        )

  assert_allowed-check_key :
      (s : AuthThrottle) (now : ℕ) {key : Text}
      → generate_throttle_key wide hmac action identifier s.hmac_secret ≡ ok key
      → assert_allowed wide hmac s action identifier now ≡ check_key s action now key
  unfolding assert_allowed
  assert_allowed-check_key s now made = rw made

-- The answers for a record that counts some failures.
check_key-blocked :
    (s : AuthThrottle) (action : AuthAction) (now : ℕ) (key : Text) (t n u : ℕ)
    → get key s.records ≡ some (counted (throttle_limits action) t n u)
    → (throttle_limits action).max_failures ≤ n
    → now < u + (throttle_limits action).block_duration_ms
    → check_key s action now key
      ≡ err (
          rate_limited (retry_after_seconds (u + (throttle_limits action).block_duration_ms - now)))
unfolding check_key counted
check_key-blocked s login now key t n u there h k = ground arith
check_key-blocked s bootstrap now key t n u there h k = ground arith

check_key-admitted :
    (s : AuthThrottle) (action : AuthAction) (now : ℕ) (key : Text) (t n u : ℕ)
    → get key s.records ≡ some (counted (throttle_limits action) t n u)
    → (n < (throttle_limits action).max_failures)
      ⊎ (u + (throttle_limits action).block_duration_ms ≤ now)
    → (e : ThrottleError) → check_key s action now key ≢ err e
unfolding check_key counted
check_key-admitted s login now key t n u there h e = ground arith
check_key-admitted s bootstrap now key t n u there h e = ground arith

module _ (wide : Text → Text) (hmac : Text → Text → Text) (action : AuthAction) (identifier : Text)
    (s : AuthThrottle) (t later : ℕ) (ts : List (ℕ × ℕ)) (now : ℕ) {key : Text}
    (made : generate_throttle_key wide hmac action identifier s.hmac_secret ≡ ok key)
    (new : get key s.records ≡ none)
    (window : InWindow t (throttle_limits action).window_ms ts) where
  -- The service after the failures.
  abbrev pub after_failures : AuthThrottle
  after_failures = run wide hmac s (failures wide hmac action identifier ((t, later) ∷ ts))

  -- If an identifier has no record, and then fails as often as the limit of the action or more, within the window
  -- and with no other call in between or after, then an attempt is refused until the duration of the block has
  -- passed since the last of the failures; the answer says in how many seconds. Between calls, failures of other
  -- identifiers may evict the record: that case is not covered.
  pub assert_allowed-blocked :
      (throttle_limits action).max_failures ≤ suc (length ts)
      → now < last_time t ts + (throttle_limits action).block_duration_ms
      → assert_allowed wide hmac after_failures action identifier now
        ≡ err (
            rate_limited (
              retry_after_seconds
                (last_time t ts + (throttle_limits action).block_duration_ms - now)))
  assert_allowed-blocked h k =
      let (kept, found) = run-first wide hmac action identifier s t later ts made new window in
      assert_allowed-check_key wide hmac action identifier after_failures now (rw kept made)
      ∙ check_key-blocked after_failures action now key t (suc (length ts)) (last_time t ts) found h
          k

  -- If an identifier has no record, and then fails within the window, with no other call in between or after, then
  -- an attempt is allowed while the failures are fewer than the limit, or once the duration has passed.
  pub assert_allowed-admitted :
      (suc (length ts) < (throttle_limits action).max_failures)
        ⊎ (last_time t ts + (throttle_limits action).block_duration_ms ≤ now)
      → (e : ThrottleError) → assert_allowed wide hmac after_failures action identifier now ≢ err e
  assert_allowed-admitted h e =
      let (kept, found) = run-first wide hmac action identifier s t later ts made new window in
      rw
        (assert_allowed-check_key wide hmac action identifier after_failures now {key = key}
          (rw kept made))
        (check_key-admitted after_failures action now key t (suc (length ts)) (last_time t ts) found
          h e)
