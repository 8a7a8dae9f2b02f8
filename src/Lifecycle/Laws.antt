-- ===== src/Lifecycle/Laws.antt =====
-- What the life cycle service answers, for every status, target and option.
use facturify.Base.{
  ◌≡◌, refl, ◌↔◌, ◌⊎◌, inl, inr, Bool, true, false, not, none, some, arith, if◌then◌else◌,
  Bool-cases,
}
use facturify.Base.Result.{ok, err}
use facturify.Js.Text.{Text}
use facturify.Js.Value.{Value, string}
use facturify.Lifecycle.Status.{
  DocumentStatus, draft, pending, processing, sent, accepted, observed, rejected, error, voided,
  status_name, status_eq, includes, terminal_document_states, voidable_document_states,
  allowed_transitions, Reason, TransitionOptions, Options, not_voidable, same_state,
  terminal_source, needs_void_confirmation, not_in_flow, TransitionValidationResult,
  invalid_transition, allow, refuse,
}
use facturify.Lifecycle.Service.{
  normalize_options, parse_status, is_terminal, is_voidable, evaluate_void, evaluate_statuses,
  evaluate_transition, can_transition, assert_transition,
}

-- The transitions of the business rules: an edge, and whether it needs the confirmation of SUNAT
-- that the document was voided.
pub data Edge : Bool → DocumentStatus → DocumentStatus → Type 0 where
  submit : {c : Bool} → Edge c draft pending
  process : {c : Bool} → Edge c pending processing
  send : {c : Bool} → Edge c processing sent
  fail_processing : {c : Bool} → Edge c processing error
  accept : {c : Bool} → Edge c sent accepted
  observe : {c : Bool} → Edge c sent observed
  reject : {c : Bool} → Edge c sent rejected
  fail_sending : {c : Bool} → Edge c sent error
  retry : {c : Bool} → Edge c error processing
  void_accepted : {c : Bool} → c ≡ true → Edge c accepted voided
  void_observed : {c : Bool} → c ≡ true → Edge c observed voided

module _ (wide : Text → Text) where
  pub parse_status-status_name :
      (s : DocumentStatus) → parse_status wide (string (status_name s)) ≡ ok s
  unfolding parse_status
  parse_status-status_name draft = refl
  parse_status-status_name _ = refl

  is_terminal-status_name :
      (s : DocumentStatus)
      → is_terminal wide (string (status_name s)) ≡ ok (includes terminal_document_states s)
  unfolding is_terminal
  is_terminal-status_name s = rw (parse_status-status_name s)

  is_voidable-status_name :
      (s : DocumentStatus)
      → is_voidable wide (string (status_name s)) ≡ ok (includes voidable_document_states s)
  unfolding is_voidable
  is_voidable-status_name s = rw (parse_status-status_name s)

-- When the rules permit a transition under given options.
abbrev pub Permitted : TransitionOptions → DocumentStatus → DocumentStatus → Type 0
Permitted opts f t =
    ((f ≡ t) × (opts.allow_idempotent ≡ true)) ⊎ Edge opts.has_void_confirmation f t

ruleset edges = (
  submit, process, send, fail_processing, accept, observe, reject, fail_sending, retry,
  void_accepted, void_observed,
)

-- The result that `evaluateTransition` gives once everything is parsed.
unfoldable pub verdict :
    DocumentStatus → DocumentStatus → TransitionOptions → TransitionValidationResult
verdict f t opts =
    if status_eq f t
    then if opts.allow_idempotent then allow f t else refuse same_state f t
    else if includes terminal_document_states f
    then refuse terminal_source f t
    else if status_eq t voided
    then if not (includes voidable_document_states f)
      then refuse not_voidable f voided
      else if not opts.has_void_confirmation
      then refuse needs_void_confirmation f voided
      else allow f voided
    else if includes (allowed_transitions f) t
    then allow f t
    else refuse not_in_flow f t

pub verdict-Permitted :
    (f t : DocumentStatus) (opts : TransitionOptions)
    → (verdict f t opts).allowed ≡ true
    → Permitted opts f t
unfolding verdict
verdict-Permitted draft draft opts h = inl (refl, ground arith)
verdict-Permitted draft pending opts h = inr submit
verdict-Permitted accepted voided opts h = grind (arith, edges)
verdict-Permitted _ _ opts h = grind (arith, edges)

pub Permitted-verdict :
    (f t : DocumentStatus) (opts : TransitionOptions)
    → Permitted opts f t
    → (verdict f t opts).allowed ≡ true
unfolding verdict
Permitted-verdict f t opts (inl (same, idempotent)) = ground arith
Permitted-verdict f t opts (inr submit) = refl
Permitted-verdict f t opts (inr (void_accepted c)) = ground arith
Permitted-verdict f t opts (inr (void_observed c)) = ground arith
Permitted-verdict f t opts (inr _) = refl

-- The reason of a refusal.
abbrev why : TransitionValidationResult → Reason
why r = elim r.reason [ some reason ↦ reason | none ↦ same_state ]

verdict_refused :
    (f t : DocumentStatus) (opts : TransitionOptions)
    → (verdict f t opts).allowed ≡ false
    → verdict f t opts ≡ refuse (why (verdict f t opts)) f t
unfolding verdict
verdict_refused draft draft opts h = ground arith
verdict_refused _ _ opts h = ground arith

verdict_allowed :
    (f t : DocumentStatus) (opts : TransitionOptions)
    → (verdict f t opts).allowed ≡ true
    → verdict f t opts ≡ allow f t
unfolding verdict
verdict_allowed draft draft opts h = ground arith
verdict_allowed _ _ opts h = ground arith

module _ (wide : Text → Text) where
  evaluate_statuses-verdict :
      (f t : DocumentStatus) (opts : TransitionOptions)
      → evaluate_statuses wide f t opts ≡ ok (verdict f t opts)
  unfolding evaluate_statuses evaluate_void verdict
  evaluate_statuses-verdict f t opts =
      ground (arith, is_terminal-status_name wide f, is_voidable-status_name wide f)

  module _ (source target : Value) {f t : DocumentStatus}
      (source_parsed : parse_status wide source ≡ ok f)
      (target_parsed : parse_status wide target ≡ ok t) where
    pub evaluate_transition-verdict :
        (options : Options)
        → evaluate_transition wide source target options
          ≡ ok (verdict f t (normalize_options options))
    unfolding evaluate_transition
    evaluate_transition-verdict options =
        rw (source_parsed, target_parsed)
          (evaluate_statuses-verdict f t (normalize_options options))

    -- On recognised statuses `canTransition` answers, and it answers true exactly for the
    -- transitions that the rules permit.
    pub can_transition_iff :
        (options : Options)
        → (b : Bool) × (can_transition wide source target options ≡ ok b)
          × ((b ≡ true) ↔ Permitted (normalize_options options) f t)
    unfolding can_transition
    can_transition_iff options =
        let opts = normalize_options options in
        (
          (verdict f t opts).allowed,
          rw (evaluate_transition-verdict options),
          (verdict-Permitted f t opts, Permitted-verdict f t opts),
        )

    -- `assertTransition` returns exactly where the rules permit, and else throws the exception
    -- with the two statuses and a reason.
    pub assert_transition_iff :
        (options : Options)
        → ((assert_transition wide source target options ≡ ok tt)
            × Permitted (normalize_options options) f t)
          ⊎ ((r : Reason) × (assert_transition wide source target options
                ≡ err (invalid_transition f t (some r)))
              × ¬ Permitted (normalize_options options) f t)
    unfolding assert_transition
    assert_transition_iff options =
        let opts = normalize_options options in
        elim (Bool-cases (verdict f t opts).allowed) [
          | inl yes' ↦
              inl (rw (evaluate_transition-verdict options, yes'), verdict-Permitted f t opts yes')
          | inr no' ↦ inr (
            why (verdict f t opts),
            rw (evaluate_transition-verdict options, verdict_refused f t opts no'),
            λ p. cc (Permitted-verdict f t opts p),
          )
        ]
