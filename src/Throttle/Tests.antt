-- ===== src/Throttle/Tests.antt =====
-- The throttle at concrete inputs.
use facturify.Base.{ℕ, ◌+◌, ◌-◌, ◌≡◌, ◌≢◌, refl, none, some, List, [], ◌∷◌, arith, inr}
use facturify.Base.Result.{ok, err}
use facturify.Js.Text.{Text, codes, text_eq, trim, to_lower}
use facturify.Js.Map.{get, set, delete}
use facturify.Throttle.{
  login, bootstrap, AuthThrottle, rate_limited, empty_identifier, create, service,
  is_record_expired, prune_loop, prune_expired, oldest_loop, ensure_capacity, fresh_record,
  bump_record, check_key, fail_key, normalize_identifier, generate_throttle_key, assert_allowed,
  record_failure, record_success, Operation, failed, step, run, retry_after_seconds,
}
use facturify.Throttle.Records.{IsValid}
use facturify.Throttle.Capacity.{create-run-IsValid}
use facturify.Throttle.Blocking.{
  last_time, after_failures, assert_allowed-blocked, assert_allowed-admitted,
}
use facturify.Throttle.Isolation.{record_success-clears}

abbrev same_text : Text → Text
same_text s = s

-- A keyed function that is not empty.
abbrev tagged : Text → Text → Text
tagged secret message = b'#' ∷ message

abbrev key_text : Text
key_text = codes "0123456789abcdef"

abbrev one_place : AuthThrottle
one_place = service key_text (some 1)

opened : Unit {0}
unfolding run step assert_allowed record_failure record_success generate_throttle_key
    normalize_identifier check_key fail_key bump_record ensure_capacity oldest_loop prune_expired
    prune_loop is_record_expired create get set delete text_eq trim to_lower
opened = tt

created : create none (some []) (some key_text) (some 1) ≡ ok one_place
unfolding opened
created = refl

-- The second identifier takes the only place.
abbrev two_names : List Operation
two_names = failed login (codes " Ann ") 10 10 ∷ failed login (codes "bob") 20 20 ∷ []

evicted :
    (run same_text tagged one_place two_names).records ≡ (codes "#LOGIN:bob", fresh_record 20) ∷ []
unfolding opened
evicted = refl

create-run-IsValid_example : IsValid (run same_text tagged one_place two_names)
create-run-IsValid_example =
    create-run-IsValid same_text tagged (λ k m. refl) none (some []) (some key_text) (some 1)
      one_place two_names created

ann_key :
    generate_throttle_key same_text tagged bootstrap (codes "Ann") key_text
    ≡ ok (codes "#BOOTSTRAP:ann")
unfolding opened
ann_key = refl

abbrev more : List (ℕ × ℕ)
more = (200, 200) ∷ (300, 300) ∷ []

no_record : get (codes "#BOOTSTRAP:ann") one_place.records ≡ none
unfolding get
no_record = refl

assert_allowed-blocked_example :
    assert_allowed same_text tagged
      (after_failures same_text tagged bootstrap
        (codes "Ann")
        one_place
        100
        100
        more
        1000
        ann_key
        no_record
        (omega arith))
      bootstrap
      (codes "Ann")
      1000
    ≡ err (rate_limited (retry_after_seconds (last_time 100 more + 1800000 - 1000)))
assert_allowed-blocked_example =
    assert_allowed-blocked same_text tagged bootstrap (codes "Ann") one_place 100 100 more 1000
      ann_key no_record (omega arith) (omega arith) (omega arith)

assert_allowed-admitted_example :
    assert_allowed same_text tagged
      (after_failures same_text tagged bootstrap
        (codes "Ann")
        one_place
        100
        100
        more
        1800300
        ann_key
        no_record
        (omega arith))
      bootstrap
      (codes "Ann")
      1800300
    ≢ err empty_identifier
assert_allowed-admitted_example =
    assert_allowed-admitted same_text tagged bootstrap (codes "Ann") one_place 100 100 more 1800300
      ann_key no_record (omega arith) (inr (omega arith)) empty_identifier

abbrev roomy : AuthThrottle
roomy = record (service key_text none) { records = (codes "#LOGIN:bob", fresh_record 20) ∷ [] }

abbrev with_ann : AuthThrottle
with_ann = record roomy {
  records = (codes "#LOGIN:bob", fresh_record 20) ∷ (codes "#BOOTSTRAP:ann", fresh_record 50) ∷ [];
}

ann_fails : record_failure same_text tagged roomy bootstrap (codes "Ann") 50 50 ≡ ok with_ann
unfolding opened
ann_fails = refl

ann_succeeds : record_success same_text tagged with_ann bootstrap (codes "Ann") ≡ ok roomy
unfolding opened
ann_succeeds = refl

record_success-clears_example :
    ((now : ℕ) → assert_allowed same_text tagged roomy bootstrap (codes "Ann") now ≡ ok roomy)
    × ((key j : Text)
        → generate_throttle_key same_text tagged bootstrap (codes "Ann") key_text ≡ ok key
        → key ≢ j
        → get j roomy.records ≡ get j with_ann.records)
record_success-clears_example =
    record_success-clears same_text tagged with_ann roomy bootstrap (codes "Ann") ann_succeeds
