-- ===== src/Lifecycle/Service.antt =====
-- src/document-lifecycle/document-lifecycle.service.ts. A status is given as a value of any type
-- and is parsed first; the tables of `toUpperCase` outside ASCII are the argument `wide`.
use facturify.Base.{Bool, true, false, not, ◌||◌, Option, none, some, List, [], ◌∷◌, if◌then◌else◌}
use facturify.Base.Result.{ok, err, ◌>>=◌}
use facturify.Js.Text.{Text, text_eq, trim, to_upper}
use facturify.Js.Value.{Value, string}
use facturify.Lifecycle.Status.{
  DocumentStatus, voided, all_statuses, status_name, status_eq, includes, terminal_document_states,
  voidable_document_states, allowed_transitions, same_state, terminal_source, not_voidable,
  needs_void_confirmation, not_in_flow, TransitionOptions, Options, omitted, shorthand, object,
  TransitionValidationResult, status_required, status_unknown, invalid_transition, M, allow, refuse,
}

unfoldable pub normalize_options : Options → TransitionOptions
normalize_options omitted = record { allow_idempotent = false; has_void_confirmation = false }
normalize_options (shorthand b) = record { allow_idempotent = b; has_void_confirmation = false }
normalize_options (object a h v) = record { allow_idempotent = a; has_void_confirmation = h || v }

-- The status of a given name, `allStatuses.includes(trimmed)` with the cast.
find_status : List DocumentStatus → Text → Option DocumentStatus
unfolding text_eq
find_status [] name = none
find_status (s ∷ ss) name = if text_eq (status_name s) name then some s else find_status ss name

-- With the text that was given.
abbrev from_option : Text → Option DocumentStatus → M DocumentStatus
from_option given (some s) = ok s
from_option given none = err (status_unknown given)

abbrev is_blank : Text → Bool
is_blank [] = true
is_blank (_ ∷ _) = false

module _ (wide : Text → Text) where
  unfoldable pub parse_status : Value → M DocumentStatus
  unfolding find_status trim to_upper
  parse_status (string s) =
      if is_blank (trim s)
      then err status_required
      else from_option s (find_status all_statuses (to_upper wide (trim s)))
  parse_status _ = err status_required

  unfoldable pub is_terminal : Value → M Bool
  unfolding parse_status
  is_terminal status = do valid ← parse_status status; ok (includes terminal_document_states valid)

  unfoldable pub is_voidable : Value → M Bool
  unfolding parse_status
  is_voidable status = do valid ← parse_status status; ok (includes voidable_document_states valid)

  -- The branch of `evaluateTransition` for the target VOIDED.
  unfoldable pub evaluate_void : DocumentStatus → TransitionOptions → M TransitionValidationResult
  unfolding is_voidable
  evaluate_void f opts = do
    voidable ← is_voidable (string (status_name f))
    ok (
        if not voidable
        then refuse not_voidable f voided
        else if not opts.has_void_confirmation
        then refuse needs_void_confirmation f voided
        else allow f voided)

  -- `evaluateTransition` on parsed statuses and normalised options. `isTerminal` and `isVoidable`
  -- parse the name of the status again, as the source does.
  unfoldable pub evaluate_statuses :
      DocumentStatus → DocumentStatus → TransitionOptions → M TransitionValidationResult
  unfolding is_terminal evaluate_void
  evaluate_statuses f t opts =
      if status_eq f t
      then ok (if opts.allow_idempotent then allow f t else refuse same_state f t)
      else do
        terminal ← is_terminal (string (status_name f))
        if terminal
            then ok (refuse terminal_source f t)
            else if status_eq t voided
            then evaluate_void f opts
            else ok
                (if includes (allowed_transitions f) t then allow f t else refuse not_in_flow f t)

  unfoldable pub evaluate_transition : Value → Value → Options → M TransitionValidationResult
  unfolding evaluate_statuses parse_status normalize_options
  evaluate_transition source target options = do
    f ← parse_status source
    t ← parse_status target
    evaluate_statuses f t (normalize_options options)

  unfoldable pub can_transition : Value → Value → Options → M Bool
  unfolding evaluate_transition
  can_transition source target options = do
    result ← evaluate_transition source target options
    ok result.allowed

  unfoldable pub assert_transition : Value → Value → Options → M (Unit {0})
  unfolding evaluate_transition
  assert_transition source target options = do
    result ← evaluate_transition source target options
    (if result.allowed
        then ok tt
        else err (invalid_transition result.source result.target result.reason))

  -- The test that `getAllowedNextStates` filters the candidates by.
  unfoldable pub is_next : DocumentStatus → TransitionOptions → DocumentStatus → M Bool
  unfolding can_transition
  is_next f opts target =
      if status_eq target f
      then ok opts.allow_idempotent
      else can_transition (string (status_name f)) (string (status_name target))
          (object opts.allow_idempotent opts.has_void_confirmation false)

  unfoldable pub filter_next :
      DocumentStatus → TransitionOptions → List DocumentStatus → M (List DocumentStatus)
  unfolding is_next
  filter_next f opts [] = ok []
  filter_next f opts (t ∷ ts) = do
    keep ← is_next f opts t
    rest ← filter_next f opts ts
    ok (if keep then t ∷ rest else rest)

  unfoldable pub get_allowed_next_states : Value → Options → M (List DocumentStatus)
  unfolding filter_next parse_status normalize_options
  get_allowed_next_states source options = do
    f ← parse_status source
    filter_next f (normalize_options options) all_statuses
