-- ===== src/Domain/Processing.antt =====
-- domain/processing.py: snapshots, resolutions and plans, with the checks of their validators.
use agenda_agent.Prelude.{
  ℕ, Bool, true, false, not, ◌&&◌, ◌||◌, Option, List, [], ◌∷◌, exists, Result, ok, err,
  value_error, if◌then◌else◌, is_none, is_some, ◌==◌, leb, length,
}
use agenda_agent.Prelude.Text.{Text}
use agenda_agent.Domain.Digest.{Uuid, Datetime}
use agenda_agent.Domain.Enums.{ApplicationStatus, RecruitmentEventType, EventStatus, ActionType}
use agenda_agent.Domain.Evidence.{NoMutation}

pub record ApplicationSnapshot : Type 0 where
  pub id : Uuid
  pub company_id : Option Uuid
  pub role_normalized : Option Text
  pub status : ApplicationStatus
  pub version : ℕ

pub record EventSnapshot : Type 0 where
  pub id : Uuid
  pub application_id : Uuid
  pub type : RecruitmentEventType
  pub status : EventStatus
  pub round : Option Text
  pub starts_at : Option Datetime
  pub deadline_at : Option Datetime
  pub timezone : Option Text
  pub source_datetime_text : Option Text
  pub semantic_fingerprint : Option Text

pub data ApplicationResolutionKind : Type 0 where
  existing create review : ApplicationResolutionKind

pub data EventResolutionKind : Type 0 where
  no_event create duplicate reschedule review : EventResolutionKind

pub data EventMutationKind : Type 0 where
  no_mutation create update : EventMutationKind

-- The values that the code writes to `reason`.
pub data ApplicationReason : Type 0 where
  source_email_link canonical_company_unresolved reviewed_unresolved_company : ApplicationReason
  reviewed_application reviewed_create_new no_existing_application : ApplicationReason
  unnormalized_role_ambiguous exact_company_role multiple_open_applications : ApplicationReason

pub data EventReason : Type 0 where
  event_type_not_tracked reviewed_reschedule_target reviewed_new_interview : EventReason
  single_active_interview reschedule_target_uncertain semantic_duplicate : EventReason
  interview_time_changed new_event : EventReason

pub record ApplicationResolution : Type 0 where
  pub kind : ApplicationResolutionKind
  pub application_id : Option Uuid
  pub current_status : Option ApplicationStatus
  pub candidate_application_ids : List Uuid
  pub reason : ApplicationReason

pub record EventResolution : Type 0 where
  pub kind : EventResolutionKind
  pub event_id : Option Uuid
  pub semantic_fingerprint : Option Text
  pub candidate_event_ids : List Uuid
  pub reason : EventReason

-- `len(ids) != len(set(ids))`: some identifier stands twice.
abbrev pub repeats : List Uuid → Bool
repeats [] = false
repeats (i ∷ is) = exists (λ j. i == j) is || repeats is

abbrev pub is_review : ApplicationResolutionKind → Bool
is_review ApplicationResolutionKind.review = true
is_review _ = false

-- `ApplicationResolution.validate_shape`
unfoldable pub validate_application : ApplicationResolution → Result ApplicationResolution
validate_application r =
    if is_review r.kind && is_some r.application_id
    then err (value_error "review resolution cannot select an application")
    else if not (is_review r.kind) && (is_none r.application_id || is_none r.current_status)
    then err (value_error "resolved application must include identity and status")
    else if repeats r.candidate_application_ids
    then err (value_error "candidate application IDs must be unique")
    else ok r

-- `event_required`
abbrev pub event_required : EventResolutionKind → Bool
event_required EventResolutionKind.create = true
event_required EventResolutionKind.duplicate = true
event_required EventResolutionKind.reschedule = true
event_required _ = false

abbrev pub is_event_review : EventResolutionKind → Bool
is_event_review EventResolutionKind.review = true
is_event_review _ = false

abbrev pub is_create : EventResolutionKind → Bool
is_create EventResolutionKind.create = true
is_create _ = false

abbrev pub is_reschedule : EventResolutionKind → Bool
is_reschedule EventResolutionKind.reschedule = true
is_reschedule _ = false

abbrev pub is_create_application : ApplicationResolutionKind → Bool
is_create_application ApplicationResolutionKind.create = true
is_create_application _ = false

abbrev pub is_reviewed_create_new : ApplicationReason → Bool
is_reviewed_create_new reviewed_create_new = true
is_reviewed_create_new _ = false

-- `EventResolution.validate_shape`
unfoldable pub validate_event : EventResolution → Result EventResolution
validate_event r =
    if event_required r.kind && is_none r.event_id
    then err (value_error "event resolution requires an event identity")
    else if is_event_review r.kind && is_some r.event_id
    then err (value_error "review resolution cannot select an event")
    else if repeats r.candidate_event_ids
    then err (value_error "candidate event IDs must be unique")
    else ok r

pub record PlannedEventMutation : Type 0 where
  pub kind : EventMutationKind
  pub event_id : Option Uuid
  pub type : Option RecruitmentEventType
  pub round : Option Text
  pub starts_at : Option Datetime
  pub deadline_at : Option Datetime
  pub timezone : Option Text
  pub source_datetime_text : Option Text
  pub semantic_fingerprint : Option Text

pub record PlannedActionItem : Type 0 where
  pub id : Uuid
  pub type : ActionType
  pub title : Text
  pub due_at : Option Datetime
  pub secure_link_ref : Option Text
  pub idempotency_key : Text

-- The bounds of the fields `title` and `idempotency_key`.
unfoldable pub validate_action_item : PlannedActionItem → Result PlannedActionItem
validate_action_item a =
    if not (leb 1 (length a.title) && leb (length a.title) 255)
    then err (value_error "title")
    else if not (length a.idempotency_key == 64)
    then err (value_error "idempotency_key")
    else ok a

pub record DomainTransitionPlan : Type 0 where
  pub source_email_id : Uuid
  pub application_id : Uuid
  pub create_application : Bool
  pub reviewed_create_new_application : Bool
  pub company_id : Option Uuid
  pub raw_company_name : Option Text
  pub role_name : Option Text
  pub role_normalized : Option Text
  pub application_status_before : ApplicationStatus
  pub application_status_after : ApplicationStatus
  pub event : PlannedEventMutation
  pub action_item : Option PlannedActionItem
  pub mutations_allowed : Bool
  pub no_mutation_reason : Option NoMutation

-- `DomainTransitionPlan.validate_mutation_guard`
unfoldable pub validate_plan : DomainTransitionPlan → Result DomainTransitionPlan
validate_plan p =
    if p.mutations_allowed && is_some p.no_mutation_reason
      || not p.mutations_allowed && is_none p.no_mutation_reason
    then err (value_error "mutation guard and reason are inconsistent")
    else ok p

pub record DomainMutationResult : Type 0 where
  pub application_id : Option Uuid
  pub event_id : Option Uuid
  pub action_item_ids : List Uuid
  pub changed : Bool
  pub no_mutation_reason : Option NoMutation
