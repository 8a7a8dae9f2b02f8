-- ===== src/Lifecycle/Status.antt =====
-- The statuses of a document, the tables of src/document-lifecycle/document-lifecycle.constants.ts
-- and the types of its interface and exception.
use facturify.Base.{ℕ, Bool, true, false, ◌||◌, Option, none, some, List, [], ◌∷◌, ◌==◌}
use facturify.Base.Result.{Result}
use facturify.Js.Text.{Text, codes}

-- The enum `DocumentStatus` of the schema, in its order.
pub data DocumentStatus : Type 0 where
  draft pending processing sent accepted observed rejected voided error : DocumentStatus

pub DocumentStatus-discrete : Discrete DocumentStatus
DocumentStatus-discrete = hlevel

-- `Object.values(DocumentStatus)`
abbrev pub all_statuses : List DocumentStatus
all_statuses =
    draft ∷ pending ∷ processing ∷ sent ∷ accepted ∷ observed ∷ rejected ∷ voided ∷ error ∷ []

abbrev pub status_name : DocumentStatus → Text
status_name draft = codes "DRAFT"
status_name pending = codes "PENDING"
status_name processing = codes "PROCESSING"
status_name sent = codes "SENT"
status_name accepted = codes "ACCEPTED"
status_name observed = codes "OBSERVED"
status_name rejected = codes "REJECTED"
status_name error = codes "ERROR"
status_name voided = codes "VOIDED"

abbrev pub status_index : DocumentStatus → ℕ
status_index draft = 0
status_index pending = 1
status_index processing = 2
status_index sent = 3
status_index accepted = 4
status_index observed = 5
status_index rejected = 6
status_index error = 8
status_index voided = 7

-- `===` on statuses.
abbrev pub status_eq : DocumentStatus → DocumentStatus → Bool
status_eq a b = status_index a == status_index b

abbrev pub includes : List DocumentStatus → DocumentStatus → Bool
includes [] s = false
includes (t ∷ ts) s = status_eq t s || includes ts s

abbrev pub terminal_document_states : List DocumentStatus
terminal_document_states = rejected ∷ voided ∷ []

abbrev pub voidable_document_states : List DocumentStatus
voidable_document_states = accepted ∷ observed ∷ []

abbrev pub allowed_transitions : DocumentStatus → List DocumentStatus
allowed_transitions draft = pending ∷ []
allowed_transitions pending = processing ∷ []
allowed_transitions processing = sent ∷ error ∷ []
allowed_transitions sent = accepted ∷ observed ∷ rejected ∷ error ∷ []
allowed_transitions error = processing ∷ []
allowed_transitions accepted = voided ∷ []
allowed_transitions observed = voided ∷ []
allowed_transitions rejected = []
allowed_transitions voided = []

-- Why a transition is refused.
pub data Reason : Type 0 where
  same_state terminal_source not_voidable needs_void_confirmation not_in_flow : Reason

pub record TransitionOptions : Type 0 where
  pub allow_idempotent : Bool
  pub has_void_confirmation : Bool

-- The argument `options`; in an object a field that is absent is false.
pub data Options : Type 0 where
  omitted : Options
  shorthand : Bool → Options
  object : (allow_idempotent has_void_confirmation void_confirmed : Bool) → Options

pub record TransitionValidationResult : Type 0 where
  pub allowed : Bool
  pub reason : Option Reason
  pub source : DocumentStatus
  pub target : DocumentStatus

-- `BadRequestException` of `parseStatus`, and `InvalidStateTransitionException`.
pub data LifecycleError : Type 0 where
  status_required : LifecycleError
  status_unknown : Text → LifecycleError
  invalid_transition : DocumentStatus → DocumentStatus → Option Reason → LifecycleError

abbrev pub M : Type 0 → Type 0
M = Result LifecycleError

-- `{ allowed: true, from, to }` and `{ allowed: false, reason, from, to }`
abbrev pub allow : DocumentStatus → DocumentStatus → TransitionValidationResult
allow f t = record { allowed = true; reason = none; source = f; target = t }

abbrev pub refuse : Reason → DocumentStatus → DocumentStatus → TransitionValidationResult
refuse r f t = record { allowed = false; reason = some r; source = f; target = t }
