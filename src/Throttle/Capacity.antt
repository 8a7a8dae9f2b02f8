-- ===== src/Throttle/Capacity.antt =====
-- The records of the throttle stay within its capacity, whatever is recorded.
use facturify.Base.{
  ℕ, ◌+◌, ◌≤◌, ◌<◌, ◌≡◌, refl, ◌∙◌, false, Option, none, some, List, [], ◌∷◌, ◌++◌, arith, length,
  Bool-cases, Option-cases, inl, inr, ltb,
}
use facturify.Base.Result.{throw_if, Result, ok, err, ◌>>=◌, >>=-eq-ok}
use facturify.Js.Text.{Text, codes}
use facturify.Js.Map.{Map, get, set, delete, size}
use facturify.Js.Map.Laws.{size-set, set-Distinct, Has, All-set, All-get}
use facturify.Throttle.{
  AuthAction, throttle_limits, ThrottleRecord, AuthThrottle, ThrottleError, is_empty, prune_expired,
  oldest_loop, evict, ensure_capacity, fresh_record, bump_record, check_key, fail_key,
  generate_throttle_key, assert_allowed, record_failure, record_success, create, Operation, allowed,
  failed, succeeded, pruned, or_unchanged, step, run, with_secret, capacity_of, service, or_text,
  normalize_identifier, action_name, bad_secret,
}
use facturify.Throttle.Records.{
  IsSaneEntry, IsValid, fresh_record-IsSane, bump_record-IsSane, delete-Kept, prune_loop-Kept,
  evict-room, evict-Kept,
}

-- A valid state with room for one more record.
record Room (s t : AuthThrottle) : Type 0 where
  valid : IsValid t
  room : size t.records < t.max_entries
  capacity : t.max_entries ≡ s.max_entries

prune_expired-IsValid : (s : AuthThrottle) (now : ℕ) → IsValid s → IsValid (prune_expired s now).0
unfolding prune_expired
prune_expired-IsValid s now v =
    let kept = prune_loop-Kept now s.records s.records 0 v.distinct v.sane in
    record {
      positive = v.positive;
      bounded = omega (arith, kept.smaller, v.bounded);
      distinct = kept.distinct;
      sane = kept.sane;
    }

prune_expired-capacity :
    (s : AuthThrottle) (now : ℕ) → (prune_expired s now).0.max_entries ≡ s.max_entries
unfolding prune_expired
prune_expired-capacity s now = refl

evicted-Room :
    (s : AuthThrottle)
    → IsValid s
    → ltb (size s.records) s.max_entries ≡ false
    → Room s (record s { records = evict (oldest_loop s.records none) s.records })
evicted-Room s v full =
    let pos : 0 < size s.records = ground (arith, v.positive) in
    let gone = evict-room s.records pos v.sane in
    let kept = evict-Kept (oldest_loop s.records none) s.records v.distinct v.sane in
    record {
      valid = record {
        positive = v.positive;
        bounded = omega (arith, v.bounded, gone);
        distinct = kept.distinct;
        sane = kept.sane;
      };
      room = omega (arith, v.bounded, gone);
      capacity = refl;
    }

-- After `ensureCapacity` there is room for one more record.
ensure_capacity-Room : (s : AuthThrottle) (now : ℕ) → IsValid s → Room s (ensure_capacity s now)
unfolding ensure_capacity
ensure_capacity-Room s now v = elim (Bool-cases (ltb (size s.records) s.max_entries)) [
  | inl roomy ↦ rw roomy (record { valid = v; room = ground arith; capacity = refl })
  | inr full ↦ rw full (
      let pruned = (prune_expired s now).0 in
      let valid' : IsValid pruned = prune_expired-IsValid s now v in
      elim (Bool-cases (ltb (size pruned.records) pruned.max_entries)) [
        | inl freed ↦ rw freed (record {
          valid = valid';
          room = ground arith;
          capacity = prune_expired-capacity s now;
        })
        | inr crowded ↦ rw crowded (
            let made = evicted-Room pruned valid' crowded in
            record {
              valid = made.valid;
              room = made.room;
              capacity = made.capacity ∙ prune_expired-capacity s now;
            })
      ])
]

delete-IsValid :
    (s : AuthThrottle) (k : Text) → IsValid s → IsValid (record s { records = delete k s.records })
delete-IsValid s k v =
    let kept = delete-Kept k s.records v.distinct v.sane in
    record {
      positive = v.positive;
      bounded = omega (arith, kept.smaller, v.bounded);
      distinct = kept.distinct;
      sane = kept.sane;
    }

check_key-IsValid :
    (s : AuthThrottle) (action : AuthAction) (now : ℕ) (key : Text)
    → IsValid s
    → IsValid (or_unchanged s (check_key s action now key))
unfolding check_key
check_key-IsValid s action now key v = grind (arith, delete-IsValid s key v)

-- Setting a key adds at most one record.
size-set-le :
    (k : Text) (r : ThrottleRecord) (m : Map ThrottleRecord)
    → (size (set k r m) ≤ size m + 1) × (Has m k → size (set k r m) ≤ size m)
size-set-le k r m = ground (arith, size-set k r m)

fail_key-IsValid :
    (s : AuthThrottle) (action : AuthAction) (now later : ℕ) (key : Text)
    → is_empty key ≡ false
    → IsValid s
    → IsValid (fail_key s action now later key)
unfolding fail_key
fail_key-IsValid s action now later key named v = elim (Option-cases (get key s.records)) [
  | inl new ↦
      rw (new, fail_key)
        (let made = ensure_capacity-Room s later v in
          let room = ensure_capacity s later in
          record {
            positive = made.valid.positive;
            bounded = omega (arith, made.room, (size-set-le key (fresh_record now) room.records).0);
            distinct = set-Distinct key (fresh_record now) room.records made.valid.distinct;
            sane =
                All-set IsSaneEntry key (fresh_record now) room.records
                  (named, fresh_record-IsSane now) made.valid.sane;
          })
  | inr (r, old) ↦
      rw (old, fail_key)
        (let bumped = bump_record (throttle_limits action) now r in
          let there : Has s.records key = λ e. cc in
          let entry = All-get IsSaneEntry key s.records v.sane old in
          record {
            positive = v.positive;
            bounded = omega (arith, v.bounded, (size-set-le key bumped s.records).1 there);
            distinct = set-Distinct key bumped s.records v.distinct;
            sane =
                All-set IsSaneEntry key bumped s.records
                  (named, bump_record-IsSane action now r entry.1) v.sane;
          })
]

capacity_of-pos : (entries : Option ℕ) → 0 < capacity_of entries
capacity_of-pos none = omega arith
capacity_of-pos (some n) = ground arith

service-IsValid : (secret : Text) (entries : Option ℕ) → IsValid (service secret entries)
service-IsValid secret entries = record {
  positive = capacity_of-pos entries;
  bounded = omega arith;
  distinct = tt;
  sane = tt;
}

with_secret-IsValid :
    (secret : Option Text) (entries : Option ℕ) {s : AuthThrottle}
    → with_secret secret entries ≡ ok s
    → IsValid s
with_secret-IsValid none entries h = cc
with_secret-IsValid (some t) entries {s} h =
    let made : service t entries ≡ s = ground arith in rw made at (service-IsValid t entries)

-- Where a method throws, the state is as it was.
or_unchanged-bind :
    (P : AuthThrottle → Type 0) (s : AuthThrottle) (m : Result ThrottleError Text)
    (f : Text → Result ThrottleError AuthThrottle)
    → P s
    → ((k : Text) → m ≡ ok k → P (or_unchanged s (f k)))
    → P (or_unchanged s (m >>= f))
or_unchanged-bind P s (ok k) f p h = h k refl
or_unchanged-bind P s (err e) f p h = p

module _ (wide : Text → Text) (hmac : Text → Text → Text)
    (nonempty : (secret message : Text) → is_empty (hmac secret message) ≡ false) where
  generate_throttle_key-nonempty :
      (action : AuthAction) (identifier secret : Text) {key : Text}
      → generate_throttle_key wide hmac action identifier secret ≡ ok key
      → is_empty key ≡ false
  unfolding generate_throttle_key
  generate_throttle_key-nonempty action identifier secret {key} h =
      let (u, long, e₁) = >>=-eq-ok (throw_if (ltb (length secret) 16) bad_secret) _ h in
      let (normalized, n, e₂) = >>=-eq-ok (normalize_identifier wide identifier) _ e₁ in
      let message = action_name action ++ (codes ":" ++ normalized) in
      let same : hmac secret message ≡ key = ground arith in rw same at (nonempty secret message)

  step-IsValid : (s : AuthThrottle) (op : Operation) → IsValid s → IsValid (step wide hmac s op)
  unfolding step assert_allowed record_failure record_success
  step-IsValid s (allowed action identifier now) v =
      or_unchanged-bind IsValid s (generate_throttle_key wide hmac action identifier s.hmac_secret)
        _ v (λ key made. check_key-IsValid s action now key v)
  step-IsValid s (failed action identifier now later) v =
      or_unchanged-bind IsValid s (generate_throttle_key wide hmac action identifier s.hmac_secret)
        _ v
        (λ key made.
          fail_key-IsValid s action now later key
            (generate_throttle_key-nonempty action identifier s.hmac_secret made) v)
  step-IsValid s (succeeded action identifier) v =
      or_unchanged-bind IsValid s (generate_throttle_key wide hmac action identifier s.hmac_secret)
        _ v (λ key made. delete-IsValid s key v)
  step-IsValid s (pruned now) v = prune_expired-IsValid s now v

  run-IsValid :
      (s : AuthThrottle) (ops : List Operation) → IsValid s → IsValid (run wide hmac s ops)
  unfolding run
  run-IsValid s [] v = v
  run-IsValid s (op ∷ ops) v = run-IsValid (step wide hmac s op) ops (step-IsValid s op v)

  -- Whatever methods are called after the construction, and whenever: the service never holds
  -- more records than its capacity, no key twice, and every record was blocked by at least as many
  -- failures as the limit of an action and is not blocked only below the higher limit. Assumed is
  -- that the HMAC is never the empty text.
  pub create-run-IsValid :
      (secret throttle_secret jwt_secret : Option Text) (entries : Option ℕ) (s : AuthThrottle)
      (ops : List Operation)
      → create secret throttle_secret jwt_secret entries ≡ ok s
      → IsValid (run wide hmac s ops)
  unfolding create
  create-run-IsValid a b c entries s ops h =
      run-IsValid s ops (with_secret-IsValid (or_text a (or_text b c)) entries h)
