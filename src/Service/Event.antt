-- ===== src/Service/Event.antt =====
-- application/domain_processing.py: `resolve_event` and `_same_round_time_change`.
pub mod Laws
use agenda_agent.Prelude.{
  Bool, List, Option, Result, [], err, false, find, if◌then◌else◌, is_empty, is_some, map, none,
  not, same_optional, some, true, value_error, ◌&&◌, ◌==◌, ◌||◌, ◌∷◌, select,
}
use agenda_agent.Service.Store.{DomainStore}
use agenda_agent.Domain.Digest.{Datetime, Digests, Uuid}
use agenda_agent.Domain.Enums.{RecruitmentEventType, is_interview, is_interview_reschedule}
use agenda_agent.Domain.Processing.{
  ApplicationResolution, EventReason, EventResolution, EventResolutionKind, EventSnapshot,
  validate_event, event_type_not_tracked, interview_time_changed, new_event,
  reviewed_reschedule_target, reviewed_new_interview, semantic_duplicate, single_active_interview,
  reschedule_target_uncertain,
}
use agenda_agent.Domain.Evidence.{
  RecruitmentEvidence, new_event_id, semantic_fingerprint, tracked_event_type, fold_words,
}
use agenda_agent.Prelude.Text.{Text, Unicode, text_eq}
use agenda_agent.Prelude.Sort.{sort_by}

unfoldable pub event_resolution :
    EventResolutionKind
    → Option Uuid
    → Option Text
    → List Uuid
    → EventReason
    → Result EventResolution
event_resolution kind event_id fingerprint candidates reason = validate_event (record {
  kind = kind;
  event_id = event_id;
  semantic_fingerprint = fingerprint;
  candidate_event_ids = candidates;
  reason = reason;
})

unfoldable pub single_changed : Datetime → List EventSnapshot → Option EventSnapshot
single_changed time (existing ∷ []) =
    if same_optional existing.starts_at (some time) then none else some existing
single_changed time _ = none

module _ (u : Unicode) (d : Digests) where
  unfoldable pub same_round : Option Text → Option Text → Bool
  same_round none none = true
  same_round (some a) (some b) = text_eq (fold_words u a) (fold_words u b)
  same_round _ _ = false

  -- The candidates of a reschedule: those of the same round, if a round is named and some match.
  unfoldable pub narrow_round : Option Text → List EventSnapshot → List EventSnapshot
  unfolding same_round
  narrow_round round candidates =
      let matches = select (λ (c : EventSnapshot). same_round c.round round) candidates in
      if is_some round && not (is_empty matches) then matches else candidates

  -- The branch of an explicit reschedule.
  unfoldable pub resolve_reschedule :
      RecruitmentEvidence → List EventSnapshot → Option Uuid → Bool → Result EventResolution
  unfolding event_resolution
  resolve_reschedule e candidates (some selected) treat_as_new =
      elim (find (λ (c : EventSnapshot). c.id == selected) candidates) [
        | none ↦ err (value_error "reviewed event is not an allowed candidate")
        | some c ↦
            event_resolution EventResolutionKind.reschedule (some c.id)
              (some (semantic_fingerprint u d e)) [] reviewed_reschedule_target
      ]
  resolve_reschedule e candidates none true =
      event_resolution EventResolutionKind.create
        (some (new_event_id d e.source_email_id (semantic_fingerprint u d e)))
        (some (semantic_fingerprint u d e)) [] reviewed_new_interview
  resolve_reschedule e (c ∷ []) none false =
      event_resolution EventResolutionKind.reschedule (some c.id)
        (some (semantic_fingerprint u d e)) [] single_active_interview
  resolve_reschedule e candidates none false =
      event_resolution EventResolutionKind.review none (some (semantic_fingerprint u d e))
        (map (λ (c : EventSnapshot). c.id) candidates) reschedule_target_uncertain

  -- `_same_round_time_change`: the only active interview of the round, if its time differs.
  unfoldable pub same_round_time_change :
      RecruitmentEvidence → Datetime → List EventSnapshot → Option EventSnapshot
  unfolding same_round single_changed
  same_round_time_change e time interviews =
      single_changed time
        (select (λ (c : EventSnapshot). same_round c.round e.interview_round) interviews)

  -- A new event of the email itself.
  unfoldable pub create_event : RecruitmentEvidence → Result EventResolution
  unfolding event_resolution
  create_event e =
      event_resolution EventResolutionKind.create
        (some (new_event_id d e.source_email_id (semantic_fingerprint u d e)))
        (some (semantic_fingerprint u d e)) [] new_event

  -- The rest of `resolve_event`, behind the search for a duplicate.
  unfoldable pub resolve_changed :
      DomainStore
      → RecruitmentEvidence
      → Uuid
      → RecruitmentEventType
      → Bool
      → Result EventResolution
  unfolding same_round_time_change create_event
  resolve_changed store e application type treat_as_new =
      if not (is_interview type && not treat_as_new)
      then create_event e
      else elim e.event_datetime [
        | none ↦ create_event e
        | some time ↦
            elim (same_round_time_change e time (store.list_active_interviews application)) [
              | none ↦ create_event e
              | some existing ↦
                  event_resolution EventResolutionKind.reschedule (some existing.id)
                    (some (semantic_fingerprint u d e)) [] interview_time_changed
            ]
      ]

  -- `dated`: only dated events are looked up by their fingerprint.
  abbrev pub find_duplicate : DomainStore → RecruitmentEvidence → Uuid → Option EventSnapshot
  find_duplicate store e application =
      if is_some e.event_datetime || is_some e.deadline
      then store.find_event_by_fingerprint application (semantic_fingerprint u d e)
      else none

  unfoldable pub resolve_tracked :
      DomainStore
      → RecruitmentEvidence
      → Uuid
      → RecruitmentEventType
      → Option Uuid
      → Bool
      → Result EventResolution
  unfolding resolve_reschedule resolve_changed narrow_round
  resolve_tracked store e application type selected treat_as_new =
      if is_interview_reschedule e.event_type
      then resolve_reschedule e
          (narrow_round e.interview_round
            (sort_by (λ (c : EventSnapshot). c.id) (store.list_active_interviews application)))
          selected treat_as_new
      else elim (find_duplicate store e application) [
        | some duplicate ↦
            event_resolution EventResolutionKind.duplicate (some duplicate.id)
              (some (semantic_fingerprint u d e)) [] semantic_duplicate
        | none ↦ resolve_changed store e application type treat_as_new
      ]

  unfoldable pub resolve_event :
      DomainStore
      → RecruitmentEvidence
      → ApplicationResolution
      → Option Uuid
      → Bool
      → Result EventResolution
  unfolding resolve_tracked
  resolve_event store e a selected treat_as_new = elim a.application_id [
    | none ↦ err (value_error "event resolution requires a resolved application")
    | some application ↦ elim (tracked_event_type e.event_type) [
      | none ↦ event_resolution EventResolutionKind.no_event none none [] event_type_not_tracked
      | some type ↦ resolve_tracked store e application type selected treat_as_new
    ]
  ]
