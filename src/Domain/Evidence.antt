-- ===== src/Domain/Evidence.antt =====
-- domain/processing.py: validated evidence of one email, and what it says of the application.
pub mod Laws
use agenda_agent.Prelude.{
  Bool, true, false, not, ◌&&◌, ◌||◌, Option, none, some, List, [], ◌∷◌, Result, ok, err,
  value_error, if◌then◌else◌, is_none, is_some,
}
use agenda_agent.Prelude.Text.{Text, Unicode, truthy, same_optional_text, collapse}
use agenda_agent.Domain.Enums.{
  ApplicationStatus, RecruitmentEventType, ActionType, is_interview_reschedule,
}
use agenda_agent.Domain.Role.{normalize_role_name}
use agenda_agent.Domain.Digest.{
  Uuid, Datetime, FingerprintPayload, ActionPayload, Digests, uuid_part, text_part,
  application_namespace, event_namespace, action_namespace,
}

pub record RecruitmentEvidence : Type 0 where
  pub source_email_id : Uuid
  pub company_id : Option Uuid
  pub raw_company_name : Option Text
  pub role_name : Option Text
  pub role_normalized : Option Text
  pub event_type : RecruitmentEventType
  pub interview_round : Option Text
  pub action_required : Bool
  pub action_text : Option Text
  pub action_link_ref : Option Text
  pub event_datetime : Option Datetime
  pub deadline : Option Datetime
  pub timezone : Option Text
  pub source_datetime_text : Option Text
  pub source_deadline_text : Option Text

-- The model validator: the normalised role is that of the role name.
unfoldable pub validate_normalized_role : Unicode → RecruitmentEvidence → Result RecruitmentEvidence
validate_normalized_role u e = elim e.role_name [
  | none ↦
      if is_some e.role_normalized
      then err (value_error "missing role cannot have a normalized value")
      else ok e
  | some role ↦
      if not (same_optional_text e.role_normalized (some (normalize_role_name u role)))
      then err (value_error "role_normalized must use deterministic normalization")
      else ok e
]

unfoldable pub desired_application_status : RecruitmentEvidence → ApplicationStatus
desired_application_status e = elim e.event_type [
  | RecruitmentEventType.application_received ↦ ApplicationStatus.applied
  | RecruitmentEventType.assessment ↦ ApplicationStatus.assessment_pending
  | RecruitmentEventType.interview ↦
      if is_some e.event_datetime
      then ApplicationStatus.interview_scheduled
      else ApplicationStatus.interview_pending
  | RecruitmentEventType.interview_reschedule ↦ ApplicationStatus.interview_scheduled
  | RecruitmentEventType.offer ↦ ApplicationStatus.offer
  | RecruitmentEventType.rejection ↦ ApplicationStatus.rejected
  | _ ↦ ApplicationStatus.unknown
]

unfoldable pub action_type_for : RecruitmentEvidence → ActionType
action_type_for e = elim e.event_type [
  | RecruitmentEventType.assessment ↦ ActionType.assessment
  | RecruitmentEventType.interview ↦ ActionType.interview
  | RecruitmentEventType.interview_reschedule ↦ ActionType.interview
  | RecruitmentEventType.deadline ↦ ActionType.deadline
  | RecruitmentEventType.offer ↦ ActionType.offer
  | RecruitmentEventType.application_received ↦ ActionType.application_portal
  | _ ↦ ActionType.general
]

unfoldable pub tracked_event_type : RecruitmentEventType → Option RecruitmentEventType
tracked_event_type RecruitmentEventType.unknown = none
tracked_event_type RecruitmentEventType.general_update = none
tracked_event_type RecruitmentEventType.interview_reschedule = some RecruitmentEventType.interview
tracked_event_type t = some t

-- Why an email may not change anything: the second component of `evidence_allows_mutation`.
pub data NoMutation : Type 0 where
  interview_datetime_unresolved event_datetime_unresolved : NoMutation
  deadline_unresolved timezone_unresolved : NoMutation

unfoldable pub evidence_allows_mutation : RecruitmentEvidence → Bool × Option NoMutation
evidence_allows_mutation e =
    if is_interview_reschedule e.event_type && is_none e.event_datetime
    then (false, some interview_datetime_unresolved)
    else if is_none e.event_datetime && is_some e.source_datetime_text
    then (false, some event_datetime_unresolved)
    else if is_none e.deadline && is_some e.source_deadline_text
    then (false, some deadline_unresolved)
    else if (is_some e.event_datetime || is_some e.deadline) && not (truthy e.timezone)
    then (false, some timezone_unresolved)
    else (true, none)

module _ (u : Unicode) where
  -- `" ".join(value.casefold().split())`
  unfoldable pub fold_words : Text → Text
  fold_words t = collapse u (u.casefold t)

  unfoldable pub normalized_optional : Option Text → Option Text
  unfolding fold_words
  normalized_optional none = none
  normalized_optional (some value) = elim (fold_words value) [ [] ↦ none | c ∷ t ↦ some (c ∷ t) ]

abbrev pub interview_type : RecruitmentEventType → RecruitmentEventType
interview_type RecruitmentEventType.interview_reschedule = RecruitmentEventType.interview
interview_type t = t

module _ (u : Unicode) (d : Digests) where
  unfoldable pub fingerprint_payload : RecruitmentEvidence → FingerprintPayload
  fingerprint_payload e = record {
    company_id = e.company_id;
    role = e.role_normalized;
    event_type = interview_type e.event_type;
    round = normalized_optional u e.interview_round;
    event_datetime = e.event_datetime;
    deadline = e.deadline;
  }

  unfoldable pub semantic_fingerprint : RecruitmentEvidence → Text
  unfolding fingerprint_payload
  semantic_fingerprint e = d.fingerprint_digest (fingerprint_payload e)

  unfoldable pub action_idempotency_key : RecruitmentEvidence → Text → ActionType → Text → Text
  action_idempotency_key e event_fingerprint action_type title = d.action_digest (record {
    event = event_fingerprint;
    action_type = action_type;
    title = fold_words u title;
    due_at = e.deadline;
  })

module _ (d : Digests) where
  pub new_application_id : Uuid → Uuid
  new_application_id source = d.uuid5 application_namespace (uuid_part source ∷ [])

  pub new_event_id : Uuid → Text → Uuid
  new_event_id source fingerprint =
      d.uuid5 event_namespace (uuid_part source ∷ text_part fingerprint ∷ [])

  pub new_action_item_id : Uuid → Text → Uuid
  new_action_item_id source key = d.uuid5 action_namespace (uuid_part source ∷ text_part key ∷ [])
