-- ===== src/Database/EventStep.antt =====
-- persistence/domain_processing.py: `_apply_event`, the third step of a transition.
use agenda_agent.Prelude.{
  Bool, List, Option, Result, [], err, false, find, if◌then◌else◌, integrity_error, none, not, ok,
  same_optional, some, true, update_where, value_error, ◌&&◌, ◌++◌, ◌==◌, ◌∷◌, exists,
}
use agenda_agent.Database.Tables.{EventHistoryRow, EventRow, has_fingerprint, is_active_interview}
use agenda_agent.Domain.Digest.{Digests, Uuid, event_history_namespace, uuid_part, text_part}
use agenda_agent.Domain.Enums.{EventStatus, RecruitmentEventType}
use agenda_agent.Domain.Processing.{EventMutationKind, PlannedEventMutation}
use agenda_agent.Prelude.Text.{Text, same_optional_text}

pub record EventWrite : Type 0 where
  pub events : List EventRow
  pub history : List EventHistoryRow
  pub event_id : Option Uuid
  pub changed : Bool

-- `insert … on_conflict_do_nothing(index_elements=["id"])`
unfoldable pub add_event_history : EventHistoryRow → List EventHistoryRow → List EventHistoryRow
add_event_history row rows =
    if exists (λ (m : EventHistoryRow). m.id == row.id) rows then rows else rows ++ row ∷ []

abbrev pub event_row : Uuid → Uuid → RecruitmentEventType → Text → PlannedEventMutation → EventRow
event_row application i type fingerprint v = record {
  id = i;
  application_id = application;
  type = type;
  round = v.round;
  starts_at = v.starts_at;
  deadline_at = v.deadline_at;
  timezone = v.timezone;
  source_datetime_text = v.source_datetime_text;
  status = EventStatus.active;
  semantic_fingerprint = some fingerprint;
}

-- An insert that does nothing if the application has an event of the fingerprint.
unfoldable pub create_event_row :
    Uuid
    → Uuid
    → RecruitmentEventType
    → Text
    → PlannedEventMutation
    → List EventRow
    → List EventHistoryRow
    → Result EventWrite
create_event_row application i type fingerprint v events history =
    elim (find (has_fingerprint application fingerprint) events) [
      | some existing ↦ ok (record {
        events = events;
        history = history;
        event_id = some existing.id;
        changed = false;
      })
      | none ↦
          if exists (λ (m : EventRow). m.id == i) events
          then err (integrity_error "recruitment_events_pkey")
          else ok (record {
            events = events ++ event_row application i type fingerprint v ∷ [];
            history = history;
            event_id = some i;
            changed = true;
          })
    ]

-- The event has what the plan says.
abbrev pub unchanged : Text → PlannedEventMutation → EventRow → Bool
unchanged fingerprint v m =
    same_optional_text m.round v.round
    && same_optional m.starts_at v.starts_at
    && same_optional m.deadline_at v.deadline_at
    && same_optional_text m.timezone v.timezone
    && same_optional_text m.source_datetime_text v.source_datetime_text
    && same_optional_text m.semantic_fingerprint (some fingerprint)

abbrev pub rescheduled : Text → PlannedEventMutation → EventRow → EventRow
rescheduled fingerprint v m = record m {
  round = v.round;
  starts_at = v.starts_at;
  deadline_at = v.deadline_at;
  timezone = v.timezone;
  source_datetime_text = v.source_datetime_text;
  semantic_fingerprint = some fingerprint;
}

abbrev pub event_history_row : Digests → Uuid → Text → EventRow → EventHistoryRow
event_history_row d source fingerprint m = record {
  id =
      d.uuid5 event_history_namespace
        (uuid_part source ∷ uuid_part m.id ∷ text_part fingerprint ∷ []);
  recruitment_event_id = m.id;
  previous_starts_at = m.starts_at;
  previous_deadline_at = m.deadline_at;
  previous_timezone = m.timezone;
  previous_status = m.status;
  source_email_id = source;
}

-- The target of a reschedule.
abbrev pub is_target : Uuid → Uuid → EventRow → Bool
is_target application i m = m.id == i && is_active_interview application m

-- Another event of the application has the fingerprint: refused by
-- `uq_recruitment_events_application_fingerprint`.
abbrev pub taken_by_other : Uuid → Uuid → Text → EventRow → Bool
taken_by_other application i fingerprint m =
    not (m.id == i) && has_fingerprint application fingerprint m

unfoldable pub update_event_row :
    Digests
    → Uuid
    → Uuid
    → Uuid
    → Text
    → PlannedEventMutation
    → List EventRow
    → List EventHistoryRow
    → Result EventWrite
unfolding add_event_history
update_event_row d source application i fingerprint v events history =
    elim (find (is_target application i) events) [
      | none ↦ err (value_error "reschedule target is no longer an active interview")
      | some m ↦
          if unchanged fingerprint v m
          then ok
              (record { events = events; history = history; event_id = some m.id; changed = false })
          else if exists (taken_by_other application i fingerprint) events
          then err (integrity_error "uq_recruitment_events_application_fingerprint")
          else ok (record {
            events =
                update_where (λ (x : EventRow). x.id == m.id) (rescheduled fingerprint v) events;
            history = add_event_history (event_history_row d source fingerprint m) history;
            event_id = some m.id;
            changed = true;
          })
    ]

-- The three values that a mutation needs: an identity, a type and a fingerprint.
abbrev pub complete :
    PlannedEventMutation
    → (Uuid → RecruitmentEventType → Text → Result EventWrite)
    → Result EventWrite
complete v k = elim v.event_id [
  | none ↦ err (value_error "event mutation is incomplete")
  | some i ↦ elim v.type [
    | none ↦ err (value_error "event mutation is incomplete")
    | some type ↦ elim v.semantic_fingerprint [
      | none ↦ err (value_error "event mutation is incomplete")
      | some fingerprint ↦ k i type fingerprint
    ]
  ]
]

-- The branches on `event.kind`.
unfoldable pub apply_event_kind :
    Digests
    → Uuid
    → Uuid
    → EventMutationKind
    → PlannedEventMutation
    → List EventRow
    → List EventHistoryRow
    → Result EventWrite
unfolding create_event_row update_event_row
apply_event_kind d source application EventMutationKind.no_mutation v events history =
    ok (record { events = events; history = history; event_id = v.event_id; changed = false })
apply_event_kind d source application EventMutationKind.create v events history =
    complete v
      (λ i type fingerprint. create_event_row application i type fingerprint v events history)
apply_event_kind d source application EventMutationKind.update v events history =
    complete v
      (λ i type fingerprint. update_event_row d source application i fingerprint v events history)

unfoldable pub apply_event :
    Digests
    → Uuid
    → Uuid
    → PlannedEventMutation
    → List EventRow
    → List EventHistoryRow
    → Result EventWrite
unfolding apply_event_kind
apply_event d source application v events history =
    apply_event_kind d source application v.kind v events history
