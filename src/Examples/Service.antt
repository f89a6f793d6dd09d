-- ===== src/Examples/Service.antt =====
-- Runs of the service.
use agenda_agent.Prelude.Text.{ascii, split, collapse}
use agenda_agent.Examples.Samples.{evidence, digests, store, existing, created}
use agenda_agent.Prelude.{[], arith, false, none, ok, refl, some, ◌∷◌, ◌≡◌, ◌≢◌}
use agenda_agent.Service.Plan.Laws.{
  IsCautious, expected_item, plan_transition-IsCautious, plan_transition-ok,
}
use agenda_agent.Service.Event.Laws.{IsResolved, resolve_event-IsResolved}
use agenda_agent.Service.Application.Laws.{MayTake, Names, resolve_application-MayTake}
use agenda_agent.Domain.Enums.{ApplicationStatus}
use agenda_agent.Domain.Processing.{
  ApplicationSnapshot, EventResolution, EventResolutionKind, exact_company_role,
  interview_time_changed, validate_application, validate_event,
}
use agenda_agent.Service.Event.{resolve_event}
use agenda_agent.Service.Plan.{build_plan, plan_transition, action_text}
use agenda_agent.Service.Application.{resolve_application}
use agenda_agent.Domain.Evidence.{tracked_event_type, semantic_fingerprint, fold_words}
use agenda_agent.Prelude.Sort.{sort_with}

existing_run :
    resolve_application digests store evidence none false
    ≡ ok (record existing { reason = exact_company_role })
unfolding resolve_application validate_application sort_with
existing_run = refl

resolve_application-MayTake_example :
    (a : ApplicationSnapshot) × Names (record existing { reason = exact_company_role }) a
    × MayTake store evidence none a
resolve_application-MayTake_example =
    resolve_application-MayTake digests store evidence none false
      (record existing { reason = exact_company_role }) existing_run refl

abbrev moved_interview : EventResolution
moved_interview = record {
  kind = EventResolutionKind.reschedule;
  event_id = some 21;
  semantic_fingerprint = some (500 ∷ []);
  candidate_event_ids = [];
  reason = interview_time_changed;
}

moved_run : resolve_event ascii digests store evidence existing none false ≡ ok moved_interview
unfolding resolve_event tracked_event_type validate_event semantic_fingerprint fold_words collapse
moved_run = refl

resolve_event-IsResolved_example : IsResolved ascii digests store evidence 11 moved_interview
resolve_event-IsResolved_example =
    resolve_event-IsResolved ascii digests store evidence 11 existing none false moved_interview
      refl moved_run

has_words : split ascii (action_text evidence) ≢ []
unfolding split
has_words h = ground arith

plan_transition-ok_example :
    plan_transition ascii digests evidence existing created
    ≡ ok (
        build_plan evidence existing created 11 ApplicationStatus.applied
          (expected_item ascii digests evidence created))
plan_transition-ok_example =
    plan_transition-ok ascii digests (λ p. refl) evidence existing created refl refl refl has_words

plan_transition-IsCautious_example : IsCautious evidence (
    build_plan evidence existing created 11 ApplicationStatus.applied
      (expected_item ascii digests evidence created))
plan_transition-IsCautious_example =
    plan_transition-IsCautious ascii digests evidence existing created
      (build_plan evidence existing created 11 ApplicationStatus.applied
        (expected_item ascii digests evidence created))
      (plan_transition-ok ascii digests (λ p. refl) evidence existing created refl refl refl
        has_words)
