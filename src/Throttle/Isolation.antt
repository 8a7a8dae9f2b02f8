-- ===== src/Throttle/Isolation.antt =====
-- What one identifier's attempts leave of the records of the others, and a success of its own.
use facturify.Base.{ℕ, ◌≡◌, ◌≢◌, sym, ◌∙◌, ap, none, ◌<◌, arith, Option-cases, ◌⊎◌, inl, inr}
use facturify.Base.Result.{ok, >>=-eq-ok}
use facturify.Js.Text.{Text}
use facturify.Js.Text.Laws.{text_eq_iff, text_eq_refl}
use facturify.Js.Map.{get, delete, size}
use facturify.Js.Map.Laws.{get-set, get-delete}
use facturify.Throttle.{
  AuthAction, throttle_limits, AuthThrottle, ensure_capacity, fresh_record, bump_record, check_key,
  fail_key, generate_throttle_key, assert_allowed, record_failure, record_success,
}

fail_key-other :
    (s : AuthThrottle) (action : AuthAction) (now later : ℕ) (key j : Text)
    → key ≢ j
    → (get key s.records ≢ none) ⊎ (size s.records < s.max_entries)
    → get j (fail_key s action now later key).records ≡ get j s.records
unfolding fail_key ensure_capacity
fail_key-other s action now later key j other room = elim (Option-cases (get key s.records)) [
  | inl new ↦ ground (arith, get-set key j (fresh_record now) s.records, text_eq_iff key j)
  | inr (r, old) ↦ ground (
    arith,
    get-set key j (bump_record (throttle_limits action) now r) s.records,
    text_eq_iff key j,
  )
]

module _ (wide : Text → Text) (hmac : Text → Text → Text) (s s' : AuthThrottle)
    (action : AuthAction) (identifier : Text) where
  -- A failure changes the record of its own key alone, if that key has a record or there is room
  -- for one more.
  pub record_failure-other :
      (now later : ℕ) (key j : Text)
      → record_failure wide hmac s action identifier now later ≡ ok s'
      → generate_throttle_key wide hmac action identifier s.hmac_secret ≡ ok key
      → key ≢ j
      → (get key s.records ≢ none) ⊎ (size s.records < s.max_entries)
      → get j s'.records ≡ get j s.records
  unfolding record_failure
  record_failure-other now later key j done made other room =
      let same : fail_key s action now later key ≡ s' = ground arith in
      rw same at (fail_key-other s action now later key j other room)

  -- After a success the identifier is not blocked at any time, and the service is left as it is by
  -- the question; the records of all other keys stay.
  pub record_success-clears :
      record_success wide hmac s action identifier ≡ ok s'
      → ((now : ℕ) → assert_allowed wide hmac s' action identifier now ≡ ok s')
        × ((key j : Text)
            → generate_throttle_key wide hmac action identifier s.hmac_secret ≡ ok key
            → key ≢ j
            → get j s'.records ≡ get j s.records)
  unfolding record_success assert_allowed check_key
  record_success-clears done =
      let (key, made, e) =
        >>=-eq-ok (generate_throttle_key wide hmac action identifier s.hmac_secret) _ done in
      let same : record s { records = delete key s.records } ≡ s' = ground arith in
      let secret : s'.hmac_secret ≡ s.hmac_secret = ap (λ x. x.hmac_secret) (sym same) in
      let made' : generate_throttle_key wide hmac action identifier s'.hmac_secret ≡ ok key =
        rw secret made in
      let gone : get key s'.records ≡ none =
        ap (λ x. get key x.records) (sym same) ∙ (simp (get-delete, text_eq_refl)) in
      (
        (λ now. rw (made', gone, check_key)),
        λ key' j named other.
            let same_key : key ≡ key' = cc in
            ap (λ x. get j x.records) (sym same)
            ∙ ground (arith, get-delete key j s.records, text_eq_iff key j),
      )
