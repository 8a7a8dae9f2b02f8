-- ===== src/Throttle/Records.antt =====
-- What holds of the records of the throttle, and what pruning and eviction keep of it.
use facturify.Base.{
  ℕ, ◌+◌, ◌≤◌, ◌<◌, ◌≡◌, refl, false, Option, none, some, [], ◌∷◌, arith, Bool-cases, inl, inr, All,
  All-map, All-both, ltb,
}
use facturify.Js.Text.{Text}
use facturify.Js.Map.{Map, delete, size}
use facturify.Js.Map.Laws.{
  size-delete, size-delete-le, Distinct, delete-Distinct, Has, All-Has, All-delete,
}
use facturify.Throttle.{
  AuthAction, login, bootstrap, throttle_limits, ThrottleRecord, AuthThrottle, is_empty,
  is_record_expired, prune_loop, oldest_loop, evict, fresh_record, bump_record,
}

-- A record that some sequence of failures can have left: it is blocked once the failures reach
-- the limit of an action, and not before.
pub record IsSane (r : ThrottleRecord) : Type 0 where
  pub failed : 1 ≤ r.failure_count
  pub blocked : 0 < r.blocked_until → 3 ≤ r.failure_count
  pub unblocked : r.blocked_until ≡ 0 → r.failure_count < 5
  pub ordered : 0 < r.blocked_until → r.last_attempt_at < r.blocked_until

-- The entry of a key that the HMAC gave.
abbrev pub IsSaneEntry : Text × ThrottleRecord → Type 0
IsSaneEntry (k, r) = (is_empty k ≡ false) × IsSane r

pub record IsValid (s : AuthThrottle) : Type 0 where
  pub positive : 0 < s.max_entries
  pub bounded : size s.records ≤ s.max_entries
  pub distinct : Distinct s.records
  pub sane : All IsSaneEntry s.records

pub fresh_record-IsSane : (now : ℕ) → IsSane (fresh_record now)
fresh_record-IsSane now = omega arith

pub bump_record-IsSane :
    (action : AuthAction) (now : ℕ) (r : ThrottleRecord)
    → IsSane r
    → IsSane (bump_record (throttle_limits action) now r)
unfolding bump_record
bump_record-IsSane login now r h = ground arith
bump_record-IsSane bootstrap now r h = ground arith

-- What pruning keeps, from a map to what is left of it.
pub record Kept (before after : Map ThrottleRecord) : Type 0 where
  pub smaller : size after ≤ size before
  pub distinct : Distinct after
  pub sane : All IsSaneEntry after

pub delete-Kept :
    (k : Text) (records : Map ThrottleRecord)
    → Distinct records
    → All IsSaneEntry records
    → Kept records (delete k records)
delete-Kept k records d a = record {
  smaller = size-delete-le k records;
  distinct = delete-Distinct k records d;
  sane = All-delete IsSaneEntry k records a;
}

pub prune_loop-Kept :
    (now : ℕ) (entries records : Map ThrottleRecord) (n : ℕ)
    → Distinct records
    → All IsSaneEntry records
    → Kept records (prune_loop now entries records n).0
unfolding prune_loop
prune_loop-Kept now [] records n d a = record { smaller = omega arith; distinct = d; sane = a }
prune_loop-Kept now ((k, r) ∷ entries) records n d a = elim (Bool-cases (is_record_expired r now)) [
  | inl expired ↦
      let first = delete-Kept k records d a in
      let rest = prune_loop-Kept now entries (delete k records) (n + 1) first.distinct first.sane in
      rw (expired, prune_loop)
        (record {
          smaller = omega (arith, first.smaller, rest.smaller);
          distinct = rest.distinct;
          sane = rest.sane;
        })
  | inr current ↦ rw (current, prune_loop) (prune_loop-Kept now entries records n d a)
]

-- The oldest entry is one of the entries.
oldest_loop-holds :
    (P : Text → Type 0) (entries : Map ThrottleRecord) (best : Text × ℕ)
    → All (λ e. P e.0) entries
    → P best.0
    → (k : Text) × (t : ℕ) × (oldest_loop entries (some best) ≡ some (k, t)) × P k
unfolding oldest_loop
oldest_loop-holds P [] (k, t) a p = (k, t, refl, p)
oldest_loop-holds P ((j, r) ∷ entries) (k, t) (q, a) p =
    elim (Bool-cases (ltb r.last_attempt_at t)) [
      | inl older ↦ rw older (oldest_loop-holds P entries (j, r.last_attempt_at) a q)
      | inr newer ↦ rw newer (oldest_loop-holds P entries (k, t) a p)
    ]

evict-delete :
    (k : Text) (t : ℕ) (records : Map ThrottleRecord)
    → is_empty k ≡ false
    → evict (some (k, t)) records ≡ delete k records
evict-delete [] t records h = cc
evict-delete (c ∷ k) t records h = refl

pub evict-room :
    (records : Map ThrottleRecord)
    → 0 < size records
    → All IsSaneEntry records
    → size (evict (oldest_loop records none) records) + 1 ≤ size records
unfolding oldest_loop
evict-room [] pos a = absurd (omega arith)
evict-room ((j, r) ∷ m) pos a =
    let records : Map ThrottleRecord = (j, r) ∷ m in
    let there = All-Has records in
    let P : Text → Type 0 = λ k. Has records k × (is_empty k ≡ false) in
    let named = All-map IsSaneEntry (λ e. is_empty e.0 ≡ false) m (λ e h. h.0) a.1 in
    let (k, t, found, facts) =
      oldest_loop-holds P m (j, r.last_attempt_at)
        (All-both (λ e. Has records e.0) (λ e. is_empty e.0 ≡ false) m there.1 named)
        (there.0, a.0.0) in
    rw (found, evict-delete k t records facts.1) (size-delete k records facts.0)

pub evict-Kept :
    (best : Option (Text × ℕ)) (records : Map ThrottleRecord)
    → Distinct records
    → All IsSaneEntry records
    → Kept records (evict best records)
evict-Kept none records d a = record { smaller = omega arith; distinct = d; sane = a }
evict-Kept (some ([], t)) records d a = record { smaller = omega arith; distinct = d; sane = a }
evict-Kept (some (c ∷ k, t)) records d a = delete-Kept (c ∷ k) records d a
