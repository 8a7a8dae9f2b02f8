-- ===== src/Lifecycle/Next.antt =====
-- The list of the next statuses against the test of a single transition.
use mathlib.Core.List.{Memᴰ}
use facturify.Base.{
  ◌≡◌, refl, ap, ◌↔◌, inl, inr, Bool, true, false, ◌||◌, List, [], ◌∷◌, arith, filter, Bool-cases,
  Memᴰ-filter,
}
use facturify.Base.Result.{ok}
use facturify.Js.Text.{Text}
use facturify.Js.Value.{Value, string}
use facturify.Lifecycle.Status.{
  DocumentStatus, draft, pending, all_statuses, status_name, status_eq, TransitionOptions, Options,
  object,
}
use facturify.Lifecycle.Service.{
  normalize_options, parse_status, can_transition, is_next, filter_next, get_allowed_next_states,
}
use facturify.Lifecycle.Laws.{
  Permitted, verdict, verdict-Permitted, Permitted-verdict, parse_status-status_name,
  evaluate_transition-verdict,
}

can_transition-verdict :
    (wide : Text → Text) (f t : DocumentStatus) (opts : TransitionOptions)
    → can_transition wide
        (string (status_name f))
        (string (status_name t))
        (object opts.allow_idempotent opts.has_void_confirmation false)
      ≡ ok (verdict f t opts).allowed
unfolding can_transition normalize_options
can_transition-verdict wide f t opts = rw (
  evaluate_transition-verdict wide _ _ (parse_status-status_name wide f)
      (parse_status-status_name wide t)
      (object opts.allow_idempotent opts.has_void_confirmation false),
  or_false opts.has_void_confirmation,
)
  where
    or_false : (b : Bool) → (b || false) ≡ b
    or_false true = refl
    or_false false = refl

module _ (wide : Text → Text) (f : DocumentStatus) (opts : TransitionOptions) where
  is_next-verdict : (t : DocumentStatus) → is_next wide f opts t ≡ ok (verdict f t opts).allowed
  unfolding is_next verdict
  is_next-verdict t = elim (Bool-cases (status_eq t f)) [
    | inl same ↦ rw same (ap ok (same_verdict same))
    | inr other ↦ rw other (can_transition-verdict wide f t opts)
  ]
    where
      same_verdict : status_eq t f ≡ true → opts.allow_idempotent ≡ (verdict f t opts).allowed
      same_verdict h = ground arith

  filter_next-filter :
      (ts : List DocumentStatus)
      → filter_next wide f opts ts ≡ ok (filter (λ t. (verdict f t opts).allowed) ts)
  unfolding filter_next
  filter_next-filter [] = refl
  filter_next-filter (t ∷ ts) = rw (is_next-verdict t, filter_next-filter ts)

all_statuses_complete : (t : DocumentStatus) → Memᴰ t all_statuses
all_statuses_complete draft = Memᴰ.head refl
all_statuses_complete pending = Memᴰ.tail (Memᴰ.head refl)
all_statuses_complete _ = search (Memᴰ.head, Memᴰ.tail, refl) depth 10

-- `getAllowedNextStates` answers for every recognised status, and lists exactly the statuses to
-- which a transition is permitted.
pub get_allowed_next_states_iff :
    (wide : Text → Text) (source : Value) (options : Options) {f : DocumentStatus}
    → parse_status wide source ≡ ok f
    → (next : List DocumentStatus) × (get_allowed_next_states wide source options ≡ ok next)
      × ((t : DocumentStatus) → Memᴰ t next ↔ Permitted (normalize_options options) f t)
unfolding get_allowed_next_states
get_allowed_next_states_iff wide source options {f} parsed =
    let opts = normalize_options options in
    let p = λ (t : DocumentStatus). (verdict f t opts).allowed in
    (
      filter p all_statuses,
      rw parsed (filter_next-filter wide f opts all_statuses),
      λ t. (
        (λ m. verdict-Permitted f t opts ((Memᴰ-filter p t all_statuses).0 m).1),
        (λ q.
            (Memᴰ-filter p t all_statuses).1
              (all_statuses_complete t, Permitted-verdict f t opts q)),
      ),
    )
