-- ===== src/Lifecycle/Flow.antt =====
-- Sequences of transitions that the service permits, from the creation of a document on.
use mathlib.Core.List.{Memᴰ}
use facturify.Base.{◌≡◌, ◌≢◌, refl, sym, ◌∙◌, ◌⊎◌, inl, inr, Bool, true, List, [], ◌∷◌}
use facturify.Base.Result.{ok}
use facturify.Js.Text.{Text}
use facturify.Js.Value.{string}
use facturify.Lifecycle.Status.{
  DocumentStatus, draft, pending, processing, sent, accepted, observed, rejected, error, voided,
  status_name, Options,
}
use facturify.Lifecycle.Service.{normalize_options, can_transition}
use facturify.Lifecycle.Laws.{
  Edge, submit, process, send, fail_processing, accept, observe, reject, fail_sending, retry,
  void_accepted, void_observed, parse_status-status_name, can_transition_iff,
}

module _ (wide : Text → Text) where
  -- A status reached from `s` by transitions that `canTransition` accepts, with the statuses that
  -- were entered on the way, the latest first.
  pub data Moves (s : DocumentStatus) : DocumentStatus → List DocumentStatus → Type 0 where
    here : Moves s s []
    next :
        {t u : DocumentStatus} {visited : List DocumentStatus}
        → Moves s t visited
        → (options : Options)
        → can_transition wide (string (status_name t)) (string (status_name u)) options ≡ ok true
        → Moves s u (u ∷ visited)

  -- A permitted transition stays where it is or follows an edge.
  pub can_transition-Edge :
      (t u : DocumentStatus) (options : Options)
      → can_transition wide (string (status_name t)) (string (status_name u)) options ≡ ok true
      → (t ≡ u) ⊎ Edge (normalize_options options).has_void_confirmation t u
  can_transition-Edge t u options h =
      let (b, answer, iff) =
        can_transition_iff wide (string (status_name t)) (string (status_name u))
          (parse_status-status_name wide t) (parse_status-status_name wide u) options in
      elim (iff.0 (cc)) [ inl (same, _) ↦ inl same | inr edge ↦ inr edge ]

-- What the statuses entered so far must hold when the document is in a given status.
abbrev pub History : DocumentStatus → List DocumentStatus → Type 0
History accepted v = Memᴰ sent v × Memᴰ accepted v
History observed v = Memᴰ sent v × Memᴰ observed v
History voided v = Memᴰ sent v × (Memᴰ accepted v ⊎ Memᴰ observed v)
History rejected v = Memᴰ sent v × Memᴰ processing v
History sent v = Memᴰ sent v × Memᴰ processing v
History processing v = Memᴰ processing v
History error v = Memᴰ processing v
History _ v = Unit

History-enter : (s t : DocumentStatus) (v : List DocumentStatus) → History s v → History s (t ∷ v)
History-enter accepted t v (p, q) = (Memᴰ.tail p, Memᴰ.tail q)
History-enter observed t v (p, q) = (Memᴰ.tail p, Memᴰ.tail q)
History-enter voided t v (p, inl q) = (Memᴰ.tail p, inl (Memᴰ.tail q))
History-enter voided t v (p, inr q) = (Memᴰ.tail p, inr (Memᴰ.tail q))
History-enter rejected t v (p, q) = (Memᴰ.tail p, Memᴰ.tail q)
History-enter sent t v (p, q) = (Memᴰ.tail p, Memᴰ.tail q)
History-enter processing t v p = Memᴰ.tail p
History-enter error t v p = Memᴰ.tail p
History-enter draft t v p = tt
History-enter pending t v p = tt

Edge-History :
    {c : Bool} {t u : DocumentStatus} (v : List DocumentStatus)
    → Edge c t u
    → History t v
    → History u (u ∷ v)
Edge-History v submit h = tt
Edge-History v process h = Memᴰ.head refl
Edge-History v send h = (Memᴰ.head refl, Memᴰ.tail h)
Edge-History v fail_processing h = Memᴰ.tail h
Edge-History v accept h = (Memᴰ.tail h.0, Memᴰ.head refl)
Edge-History v observe h = (Memᴰ.tail h.0, Memᴰ.head refl)
Edge-History v reject h = (Memᴰ.tail h.0, Memᴰ.tail h.1)
Edge-History v fail_sending h = Memᴰ.tail h.1
Edge-History v retry h = Memᴰ.head refl
Edge-History v (void_accepted c) h = (Memᴰ.tail h.0, inl (Memᴰ.tail h.1))
Edge-History v (void_observed c) h = (Memᴰ.tail h.0, inr (Memᴰ.tail h.1))

no-Edge_of_terminal : {c : Bool} {t u : DocumentStatus} → Edge c t u → (t ≢ rejected) × (t ≢ voided)
no-Edge_of_terminal submit = (λ e. cc, λ e. cc)
no-Edge_of_terminal process = (λ e. cc, λ e. cc)
no-Edge_of_terminal _ = (λ e. cc, λ e. cc)

module _ (wide : Text → Text) where
  -- Whatever the service permits from DRAFT on, the history of the document fits its status:
  -- ACCEPTED, OBSERVED, REJECTED and VOIDED only after SENT, SENT only after PROCESSING, and VOIDED
  -- only after ACCEPTED or OBSERVED.
  pub Moves-History :
      {s : DocumentStatus} {visited : List DocumentStatus}
      → Moves wide draft s visited
      → History s visited
  Moves-History here = tt
  Moves-History (next {t} {u} {visited} m options h) =
      elim (can_transition-Edge wide t u options h) [
        | inl same ↦ History-enter u u visited (rw same at (Moves-History m))
        | inr edge ↦ Edge-History visited edge (Moves-History m)
      ]

  -- REJECTED and VOIDED are left by no sequence of permitted transitions.
  pub Moves-terminal :
      {s u : DocumentStatus} {visited : List DocumentStatus}
      → Moves wide s u visited
      → (s ≡ rejected) ⊎ (s ≡ voided)
      → u ≡ s
  Moves-terminal here h = refl
  Moves-terminal (next {t} {u} m options e) h = elim (can_transition-Edge wide t u options e) [
    | inl same ↦ sym same ∙ Moves-terminal m h
    | inr edge ↦
        let stuck = no-Edge_of_terminal edge in
        let back = Moves-terminal m h in
        absurd (elim h [ inl r ↦ stuck.0 (back ∙ r) | inr v ↦ stuck.1 (back ∙ v) ])
  ]
