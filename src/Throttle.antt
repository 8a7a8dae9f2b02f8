-- ===== src/Throttle.antt =====
-- The throttle of failed logins: src/auth-throttle. The HMAC is the argument `hmac`, of the secret
-- and the message; the clock is read by the caller of an operation, in milliseconds.
pub mod Records
pub mod Capacity
pub mod Blocking
pub mod Isolation
mod Tests
use facturify.Base.{
  ℕ, suc, ◌+◌, ◌-◌, ◌*◌, ◌/◌, Bool, true, false, not, ◌&&◌, ◌||◌, Option, none, some, List, [], ◌∷◌,
  ◌++◌, max, leb, ltb, ◌==◌, if◌then◌else◌, length,
}
use facturify.Base.Result.{Result, ok, err, ◌>>=◌, ◌>>◌, throw_if}
use facturify.Js.Text.{Text, codes, trim, to_lower}
use facturify.Js.Map.{Map, get, set, delete, size}

pub data AuthAction : Type 0 where
  login bootstrap : AuthAction

pub record ActionThrottleLimits : Type 0 where
  pub max_failures : ℕ
  pub window_ms : ℕ
  pub block_duration_ms : ℕ

abbrev pub throttle_limits : AuthAction → ActionThrottleLimits
throttle_limits login = record { max_failures = 5; window_ms = 900000; block_duration_ms = 900000 }
throttle_limits bootstrap = record {
  max_failures = 3;
  window_ms = 1800000;
  block_duration_ms = 1800000;
}

abbrev pub action_name : AuthAction → Text
action_name login = codes "LOGIN"
action_name bootstrap = codes "BOOTSTRAP"

abbrev pub default_max_entries : ℕ
default_max_entries = 10000

pub record ThrottleRecord : Type 0 where
  pub failure_count : ℕ
  pub first_failure_at : ℕ
  pub blocked_until : ℕ
  pub last_attempt_at : ℕ

-- The service: its secret, its capacity and its records.
pub record AuthThrottle : Type 0 where
  pub hmac_secret : Text
  pub max_entries : ℕ
  pub records : Map ThrottleRecord

pub data ThrottleError : Type 0 where
  bad_secret empty_identifier : ThrottleError
  rate_limited : ℕ → ThrottleError

abbrev pub is_empty : Text → Bool
is_empty [] = true
is_empty (_ ∷ _) = false

-- `a || b` on texts that may be absent.
abbrev pub or_text : Option Text → Option Text → Option Text
or_text none b = b
or_text (some []) b = b
or_text (some (c ∷ s)) b = some (c ∷ s)

-- `options.maxEntries` if it is above 0, and the default else.
abbrev pub capacity_of : Option ℕ → ℕ
capacity_of none = default_max_entries
capacity_of (some n) = if ltb 0 n then n else default_max_entries

abbrev pub service : Text → Option ℕ → AuthThrottle
service secret entries = record {
  hmac_secret = secret;
  max_entries = capacity_of entries;
  records = [];
}

abbrev pub with_secret : Option Text → Option ℕ → Result ThrottleError AuthThrottle
with_secret none entries = err bad_secret
with_secret (some s) entries = if ltb (length s) 16 then err bad_secret else ok (service s entries)

-- The constructor, with the option `hmacSecret`, the two variables of the environment and the
-- option `maxEntries`.
unfoldable pub create :
    (secret throttle_secret jwt_secret : Option Text) → Option ℕ → Result ThrottleError AuthThrottle
create secret throttle_secret jwt_secret entries =
    with_secret (or_text secret (or_text throttle_secret jwt_secret)) entries

abbrev max_window_ms : ℕ
max_window_ms = 1800000

unfoldable pub is_record_expired : ThrottleRecord → ℕ → Bool
is_record_expired r now =
    if ltb 0 r.blocked_until
    then leb r.blocked_until now
    else leb (r.first_failure_at + max_window_ms) now

-- The loop of `pruneExpired` over the entries: the map that is left, and the count.
unfoldable pub prune_loop : ℕ → Map ThrottleRecord → Map ThrottleRecord → ℕ → Map ThrottleRecord × ℕ
unfolding is_record_expired
prune_loop now [] records deleted = (records, deleted)
prune_loop now ((k, r) ∷ entries) records deleted =
    prune_loop now entries (if is_record_expired r now then delete k records else records)
      (if is_record_expired r now then deleted + 1 else deleted)

unfoldable pub prune_expired : AuthThrottle → ℕ → AuthThrottle × ℕ
prune_expired s now =
    let (records, deleted) = prune_loop now s.records s.records 0 in
    (record s { records = records }, deleted)

-- The loop over the entries for the one that was attempted longest ago; `none` is the pair of
-- `null` and `Infinity` that it begins with.
unfoldable pub oldest_loop : Map ThrottleRecord → Option (Text × ℕ) → Option (Text × ℕ)
oldest_loop [] best = best
oldest_loop ((k, r) ∷ entries) none = oldest_loop entries (some (k, r.last_attempt_at))
oldest_loop ((k, r) ∷ entries) (some (j, t)) =
    oldest_loop entries
      (if ltb r.last_attempt_at t then some (k, r.last_attempt_at) else some (j, t))

-- `if (oldestKey) this.records.delete(oldestKey)`
abbrev pub evict : Option (Text × ℕ) → Map ThrottleRecord → Map ThrottleRecord
evict none records = records
evict (some ([], t)) records = records
evict (some (c ∷ k, t)) records = delete (c ∷ k) records

unfoldable pub ensure_capacity : AuthThrottle → ℕ → AuthThrottle
ensure_capacity s now =
    if ltb (size s.records) s.max_entries
    then s
    else let pruned = (prune_expired s now).0 in
      if ltb (size pruned.records) pruned.max_entries
      then pruned
      else record pruned { records = evict (oldest_loop pruned.records none) pruned.records }

-- A record of one failure.
abbrev pub fresh_record : ℕ → ThrottleRecord
fresh_record now = record {
  failure_count = 1;
  first_failure_at = now;
  blocked_until = 0;
  last_attempt_at = now;
}

-- What `recordFailure` makes of a record that is there.
unfoldable pub bump_record : ActionThrottleLimits → ℕ → ThrottleRecord → ThrottleRecord
bump_record limits now r =
    if ltb 0 r.blocked_until && leb r.blocked_until now
    then fresh_record now
    else if r.blocked_until == 0 && leb (r.first_failure_at + limits.window_ms) now
    then fresh_record now
    else record r {
      failure_count = r.failure_count + 1;
      last_attempt_at = now;
      blocked_until =
          if leb limits.max_failures (r.failure_count + 1)
          then now + limits.block_duration_ms
          else r.blocked_until;
    }

-- `Math.max(1, Math.ceil(ms / 1000))`
abbrev pub retry_after_seconds : ℕ → ℕ
retry_after_seconds ms = max 1 ((ms + 999) / 1000)

-- The state after `assertAllowed`, for the key of the attempt.
unfoldable pub check_key : AuthThrottle → AuthAction → ℕ → Text → Result ThrottleError AuthThrottle
check_key s action now key = elim (get key s.records) [
  | none ↦ ok s
  | some r ↦
      if ltb now r.blocked_until
      then err (rate_limited (retry_after_seconds (r.blocked_until - now)))
      else if leb (r.first_failure_at + (throttle_limits action).window_ms) now
          && leb r.blocked_until now
      then ok (record s { records = delete key s.records })
      else ok s
]

-- The state after `recordFailure`. The clock is read at `now`, and once more at `later` where
-- the records are pruned.
unfoldable pub fail_key : AuthThrottle → AuthAction → ℕ → ℕ → Text → AuthThrottle
fail_key s action now later key = elim (get key s.records) [
  | none ↦
      let room = ensure_capacity s later in
      record room { records = set key (fresh_record now) room.records }
  | some r ↦ record s { records = set key (bump_record (throttle_limits action) now r) s.records }
]

unfoldable pub get_record_count : AuthThrottle → ℕ
get_record_count s = size s.records

-- A call of a public method, with the readings of the clock.
pub data Operation : Type 0 where
  allowed : AuthAction → Text → (now : ℕ) → Operation
  failed : AuthAction → Text → (now later : ℕ) → Operation
  succeeded : AuthAction → Text → Operation
  pruned : (now : ℕ) → Operation

-- A method that throws changes nothing.
abbrev pub or_unchanged : AuthThrottle → Result ThrottleError AuthThrottle → AuthThrottle
or_unchanged s (ok t) = t
or_unchanged s (err e) = s

unfoldable pub normalize_identifier : (Text → Text) → Text → Result ThrottleError Text
normalize_identifier wide raw =
    let trimmed = to_lower wide (trim raw) in
    if is_empty trimmed then err empty_identifier else ok trimmed

module _ (wide : Text → Text) (hmac : Text → Text → Text) where
  unfoldable pub generate_throttle_key : AuthAction → Text → Text → Result ThrottleError Text
  generate_throttle_key action identifier secret = do
    throw_if (ltb (length secret) 16) bad_secret
    normalized ← normalize_identifier wide identifier
    ok (hmac secret (action_name action ++ (codes ":" ++ normalized)))

  unfoldable pub assert_allowed :
      AuthThrottle → AuthAction → Text → ℕ → Result ThrottleError AuthThrottle
  assert_allowed s action identifier now = do
    key ← generate_throttle_key action identifier s.hmac_secret
    check_key s action now key

  unfoldable pub record_failure :
      AuthThrottle → AuthAction → Text → ℕ → ℕ → Result ThrottleError AuthThrottle
  record_failure s action identifier now later = do
    key ← generate_throttle_key action identifier s.hmac_secret
    ok (fail_key s action now later key)

  unfoldable pub record_success :
      AuthThrottle → AuthAction → Text → Result ThrottleError AuthThrottle
  record_success s action identifier = do
    key ← generate_throttle_key action identifier s.hmac_secret
    ok (record s { records = delete key s.records })

  unfoldable pub step : AuthThrottle → Operation → AuthThrottle
  step s (allowed action identifier now) = or_unchanged s (assert_allowed s action identifier now)
  step s (failed action identifier now later) =
      or_unchanged s (record_failure s action identifier now later)
  step s (succeeded action identifier) = or_unchanged s (record_success s action identifier)
  step s (pruned now) = (prune_expired s now).0

  unfoldable pub run : AuthThrottle → List Operation → AuthThrottle
  run s [] = s
  run s (op ∷ ops) = run (step s op) ops
