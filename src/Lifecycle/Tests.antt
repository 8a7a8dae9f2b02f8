-- ===== src/Lifecycle/Tests.antt =====
-- The life cycle at concrete inputs.
use mathlib.Core.List.{Memᴰ}
use facturify.Base.{◌≡◌, refl, ◌↔◌, ◌⊎◌, true, false, some, List, [], ◌∷◌}
use facturify.Base.Result.{ok, err}
use facturify.Js.Text.{Text, codes}
use facturify.Js.Value.{Value, string}
use facturify.Lifecycle.Status.{
  DocumentStatus, draft, pending, processing, sent, accepted, error, voided,
  needs_void_confirmation, Reason, omitted, shorthand, object, invalid_transition,
}
use facturify.Lifecycle.Service.{
  normalize_options, parse_status, can_transition, assert_transition, get_allowed_next_states,
}
use facturify.Lifecycle.Laws.{Permitted, assert_transition_iff}
use facturify.Lifecycle.Next.{get_allowed_next_states_iff}
use facturify.Lifecycle.Flow.{Moves, here, next, History, Moves-History}

abbrev same_text : Text → Text
same_text s = s

abbrev sloppy_accepted : Value
sloppy_accepted = string (codes "  accepted ")

sloppy_parsed : parse_status same_text sloppy_accepted ≡ ok accepted
unfolding parse_status
sloppy_parsed = refl

voided_parsed : parse_status same_text (string (codes "Voided")) ≡ ok voided
unfolding parse_status
voided_parsed = refl

unconfirmed_void :
    assert_transition same_text sloppy_accepted (string (codes "voided")) omitted
    ≡ err (invalid_transition accepted voided (some needs_void_confirmation))
unfolding assert_transition
unconfirmed_void = refl

next_of_sent :
    get_allowed_next_states same_text (string (codes "processing")) (shorthand true)
    ≡ ok (processing ∷ sent ∷ error ∷ [])
unfolding get_allowed_next_states
next_of_sent = refl

assert_transition_iff_example :
    ((assert_transition same_text sloppy_accepted (string (codes "Voided")) omitted ≡ ok tt)
      × Permitted (normalize_options omitted) accepted voided)
    ⊎ ((r : Reason) × (assert_transition same_text sloppy_accepted (string (codes "Voided")) omitted
          ≡ err (invalid_transition accepted voided (some r)))
        × ¬ Permitted (normalize_options omitted) accepted voided)
assert_transition_iff_example =
    assert_transition_iff same_text sloppy_accepted (string (codes "Voided")) sloppy_parsed
      voided_parsed omitted

get_allowed_next_states_iff_example :
    (nexts : List DocumentStatus) × (get_allowed_next_states same_text sloppy_accepted
        (shorthand true)
      ≡ ok nexts)
    × ((t : DocumentStatus)
        → Memᴰ t nexts ↔ Permitted (normalize_options (shorthand true)) accepted t)
get_allowed_next_states_iff_example =
    get_allowed_next_states_iff same_text sloppy_accepted (shorthand true) sloppy_parsed

abbrev to_voided : List DocumentStatus
to_voided = voided ∷ accepted ∷ sent ∷ processing ∷ pending ∷ []

lived : Moves same_text draft voided to_voided
unfolding can_transition
lived =
    next (next (next (next (next here omitted refl) omitted refl) omitted refl) omitted refl)
      (object false false true) refl

Moves-History_example : History voided to_voided
Moves-History_example = Moves-History same_text lived
