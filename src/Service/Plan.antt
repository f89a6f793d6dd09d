-- ===== src/Service/Plan.antt =====
-- application/domain_processing.py: `plan_transition`, `_planned_event` and `_planned_action`.
pub mod Laws
use agenda_agent.Prelude.{
  Bool, Option, Result, [], err, if◌then◌else◌, none, not, ok, or_else, some, take, value_error,
  ◌&&◌, ◌>>=◌,
}
use agenda_agent.Domain.Digest.{Digests, Uuid}
use agenda_agent.Domain.Enums.{ApplicationStatus}
use agenda_agent.Domain.Processing.{
  ApplicationResolution, DomainTransitionPlan, EventMutationKind, EventResolution,
  PlannedActionItem, PlannedEventMutation, is_create, is_event_review, is_create_application,
  is_reschedule, is_reviewed_create_new, validate_action_item, validate_plan,
}
use agenda_agent.Domain.Evidence.{
  RecruitmentEvidence, action_idempotency_key, evidence_allows_mutation, action_type_for,
  semantic_fingerprint, desired_application_status, tracked_event_type, new_action_item_id,
}
use agenda_agent.Prelude.Text.{Text, Unicode, collapse, truthy, codes}
use agenda_agent.Domain.Status.{next_application_status}

-- `_planned_event`; `a or b` on two optional texts takes `b` where `a` is `None` or empty
unfoldable pub planned_event : RecruitmentEvidence → EventResolution → Bool → PlannedEventMutation
planned_event e r allowed = record {
  kind =
      if allowed && is_create r.kind
      then EventMutationKind.create
      else if allowed && is_reschedule r.kind
      then EventMutationKind.update
      else EventMutationKind.no_mutation;
  event_id = r.event_id;
  type = tracked_event_type e.event_type;
  round = e.interview_round;
  starts_at = e.event_datetime;
  deadline_at = e.deadline;
  timezone = e.timezone;
  source_datetime_text =
      if truthy e.source_datetime_text then e.source_datetime_text else e.source_deadline_text;
  semantic_fingerprint = r.semantic_fingerprint;
}

-- `evidence.action_text or "Recruitment action required"`
abbrev pub action_text : RecruitmentEvidence → Text
action_text e =
    if truthy e.action_text then or_else e.action_text [] else codes "Recruitment action required"

-- `" ".join(….split())[:255]`
unfoldable pub action_title : Unicode → RecruitmentEvidence → Text
action_title u e = take 255 (collapse u (action_text e))

-- The status after the transition: no change if the evidence allows none.
abbrev pub target_status : RecruitmentEvidence → ApplicationStatus → ApplicationStatus
target_status e current =
    if (evidence_allows_mutation e).0
    then next_application_status current (desired_application_status e)
    else current

unfoldable pub build_plan :
    RecruitmentEvidence
    → ApplicationResolution
    → EventResolution
    → Uuid
    → ApplicationStatus
    → Option PlannedActionItem
    → DomainTransitionPlan
unfolding planned_event
build_plan e a r application current item =
    let (allowed, reason) = evidence_allows_mutation e in
    record {
      source_email_id = e.source_email_id;
      application_id = application;
      create_application = is_create_application a.kind;
      reviewed_create_new_application = is_reviewed_create_new a.reason;
      company_id = e.company_id;
      raw_company_name = e.raw_company_name;
      role_name = e.role_name;
      role_normalized = e.role_normalized;
      application_status_before = current;
      application_status_after = target_status e current;
      event = planned_event e r allowed;
      action_item = item;
      mutations_allowed = allowed;
      no_mutation_reason = reason;
    }

module _ (u : Unicode) (d : Digests) where
  abbrev pub action_fingerprint : RecruitmentEvidence → EventResolution → Text
  action_fingerprint e r =
      if truthy r.semantic_fingerprint
      then or_else r.semantic_fingerprint []
      else semantic_fingerprint u d e

  unfoldable pub action_key : RecruitmentEvidence → EventResolution → Text
  unfolding action_title
  action_key e r =
      action_idempotency_key u d e (action_fingerprint e r) (action_type_for e) (action_title u e)

  unfoldable pub action_of : RecruitmentEvidence → EventResolution → PlannedActionItem
  action_of e r = record {
    id = new_action_item_id d e.source_email_id (action_key e r);
    type = action_type_for e;
    title = action_title u e;
    due_at = e.deadline;
    secure_link_ref = e.action_link_ref;
    idempotency_key = action_key e r;
  }

  -- `_planned_action`
  unfoldable pub planned_action :
      RecruitmentEvidence → EventResolution → Result (Option PlannedActionItem)
  planned_action e r =
      if not e.action_required
      then ok none
      else (do item ← validate_action_item (action_of e r); ok (some item))

  -- The body behind the two guards.
  unfoldable pub plan_resolved :
      RecruitmentEvidence
      → ApplicationResolution
      → EventResolution
      → Uuid
      → ApplicationStatus
      → Result DomainTransitionPlan
  unfolding build_plan planned_action
  plan_resolved e a r application current = do
    item ← if (evidence_allows_mutation e).0 then planned_action e r else ok none
    validate_plan (build_plan e a r application current item)

  unfoldable pub plan_transition :
      RecruitmentEvidence → ApplicationResolution → EventResolution → Result DomainTransitionPlan
  unfolding plan_resolved
  plan_transition e a r = elim a.application_id [
    | none ↦ err (value_error "transition planning requires a resolved application")
    | some application ↦ elim a.current_status [
      | none ↦ err (value_error "transition planning requires a resolved application")
      | some current ↦
          if is_event_review r.kind
          then err (value_error "transition planning cannot bypass event review")
          else plan_resolved e a r application current
    ]
  ]
